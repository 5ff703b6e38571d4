-- ===== src/Tcp/Connection/Closing.antt =====
-- How a connection of src/slite/TCPConnection.cc is established, closed and destroyed.
use serverlite.Base.{
  true, false, some, none, List, [], ◌∷◌, ◌++◌, Bytes, ◌≡◌, refl, arith, ap, ◌∙◌, append_assoc,
}
use serverlite.Base.Maps.{
  contains, contains-insert_self, contains-erase_self, insert, erase, erase_self,
}
use serverlite.Reactor.Channel.{
  ChannelState, new, add, delete, is_recving, is_sending, enable_recv, disable_all, remove,
  none_event, CtlOp, Ctl, ctl_add, ctl_del,
}
use serverlite.Tcp.Connection.{
  Connection, connecting, connected, disconnected, handle_close, handle_recv, connect_established,
  connect_destroyed, SendResult, RecvResult, received, force_close, handle_close_task, Op,
  established, destroyed, force_closes, readable, next_task, step, steps, connection_call,
  close_call,
}

-- The connection after connectEstablished, with a channel that was new.
abbrev up : Connection → Connection
up c = record c {
  state = connected;
  channel = record c.channel {
    events = record { recv_event = true; send_event = false };
    tied = true;
    state = add;
  };
  poller = record {
    channels = insert c.poller.channels c.channel.fd c.channel.addr;
    calls =
        record {
          op = ctl_add;
          fd = c.channel.fd;
          events = record { recv_event = true; send_event = false };
        }
        ∷ c.poller.calls;
  };
  calls = c.calls ++ connection_call true ∷ [];
}

-- After handleClose, with a channel in state `s` before disableAll.
abbrev closed : ChannelState → ChannelState → CtlOp → Connection → Connection
closed s s' op c = record c {
  state = disconnected;
  channel = record c.channel { events = none_event; state = s' };
  poller = record c.poller {
    calls = record { op = op; fd = c.channel.fd; events = none_event } ∷ c.poller.calls;
  };
  calls = (c.calls ++ connection_call false ∷ []) ++ close_call ∷ [];
}

connect_established-up :
    (c : Connection)
    → c.channel.state ≡ new
    → is_sending c.channel ≡ false
    → c.poller.channels c.channel.fd ≡ none
    → connect_established c ≡ some (up c)
unfolding connect_established enable_recv
connect_established-up c n q m = ground arith

handle_close_added :
    (c : Connection) → c.channel.state ≡ add → handle_close c ≡ some (closed add delete ctl_del c)
unfolding handle_close disable_all
handle_close_added c a = ground arith

handle_close_deleted :
    (c : Connection)
    → c.channel.state ≡ delete
    → contains c.poller.channels c.channel.fd ≡ true
    → handle_close c ≡ some (closed delete add ctl_add c)
unfolding handle_close disable_all
handle_close_deleted c a m = ground arith

handle_recv_closes :
    (consume : Bytes → Bytes) (c : Connection)
    → is_recving c.channel ≡ true
    → handle_recv consume (received []) c ≡ handle_close c
unfolding handle_recv
handle_recv_closes consume c r = rw r

-- After connectDestroyed, with `ctls` for the calls of epoll_ctl.
abbrev gone : List Ctl → Connection → Connection
gone ctls c = record c {
  channel = record c.channel { state = new };
  poller = record { channels = erase c.poller.channels c.channel.fd; calls = ctls };
}

connect_destroyed_deleted :
    (c : Connection)
    → c.state ≡ disconnected
    → c.channel.state ≡ delete
    → c.channel.events ≡ none_event
    → contains c.poller.channels c.channel.fd ≡ true
    → connect_destroyed c ≡ some (gone c.poller.calls c)
unfolding connect_destroyed remove
connect_destroyed_deleted c s a n m = ground arith

connect_destroyed_added :
    (c : Connection)
    → c.state ≡ disconnected
    → c.channel.state ≡ add
    → c.channel.events ≡ none_event
    → contains c.poller.channels c.channel.fd ≡ true
    → connect_destroyed c
      ≡ some (
          gone (record { op = ctl_del; fd = c.channel.fd; events = none_event } ∷ c.poller.calls) c)
unfolding connect_destroyed remove
connect_destroyed_added c s a n m = ground arith

connect_destroyed_missing :
    (c : Connection)
    → c.state ≡ disconnected
    → contains c.poller.channels c.channel.fd ≡ false
    → connect_destroyed c ≡ none
unfolding connect_destroyed remove
connect_destroyed_missing c s m = ground arith

steps_first :
    (o : Op) (os : List Op) (c d : Connection) → step o c ≡ some d → steps (o ∷ os) c ≡ steps os d
unfolding steps
steps_first o os c d e = rw e

steps_fail : (o : Op) (os : List Op) (c : Connection) → step o c ≡ none → steps (o ∷ os) c ≡ none
unfolding steps
steps_fail o os c e = rw e

steps_done : (c : Connection) → steps [] c ≡ some c
unfolding steps
steps_done c = refl

step_ops :
    (c : Connection) (consume : Bytes → Bytes) (r : RecvResult)
    → (step established c ≡ connect_established c)
      × (step destroyed c ≡ connect_destroyed c)
      × (step (readable consume r) c ≡ handle_recv consume r c)
      × (step force_closes c ≡ some (force_close c))
unfolding step
step_ops c consume r = (refl, refl, refl, refl)

-- After forceClose on an established connection with no task waiting.
abbrev force_closed : Connection → Connection
force_closed c = record c { state = disconnected; tasks = handle_close_task ∷ [] }

force_close_lem :
    (c : Connection) → c.state ≡ connected → c.tasks ≡ [] → force_close c ≡ force_closed c
unfolding force_close
force_close_lem c s t = ground arith

step_task :
    (c : Connection) (r : SendResult)
    → c.tasks ≡ handle_close_task ∷ []
    → step (next_task r) c ≡ handle_close (record c { tasks = [] })
unfolding step
step_task c r t = rw t

-- The whole life of a connection that the peer closes: made, established, its end of stream read,
-- destroyed. If its descriptor was not in channels_ and its channel is as made, no assert fails;
-- the connection callback is made once up and once down, the close callback once, and the
-- descriptor is not in channels_ any more.
pub lifecycle :
    (c : Connection) (consume : Bytes → Bytes)
    → c.state ≡ connecting
    → c.channel.state ≡ new
    → is_sending c.channel ≡ false
    → c.poller.channels c.channel.fd ≡ none
    → (c' : Connection) × (steps (established ∷ readable consume (received []) ∷ destroyed ∷ []) c
        ≡ some c')
      × (c'.calls ≡ c.calls ++ (connection_call true ∷ connection_call false ∷ close_call ∷ []))
      × (c'.poller.channels c.channel.fd ≡ none)
lifecycle c consume s n q m =
    let c1 = up c in
    let c2 = closed add delete ctl_del c1 in
    let c3 = gone c2.poller.calls c2 in
    let known : contains (insert c.poller.channels c.channel.fd c.channel.addr) c.channel.fd
        ≡ true =
      contains-insert_self c.poller.channels c.channel.fd c.channel.addr in
    (
      c3,
      steps_first established _ c c1
            ((step_ops c consume (received [])).0 ∙ connect_established-up c n q m)
          ∙ steps_first (readable consume (received [])) _ c1 c2 (
              (step_ops c1 consume (received [])).2
              ∙ handle_recv_closes consume c1 refl
              ∙ handle_close_added c1 refl)
          ∙ steps_first destroyed [] c2 c3 (
              (step_ops c2 consume (received [])).1
              ∙ connect_destroyed_deleted c2 refl refl refl known)
          ∙ steps_done c3,
      simp append_assoc,
      erase_self c1.poller.channels c.channel.fd,
    )

-- forceClose leaves its close to a task. If the end of the stream is read before that task runs,
-- both close the connection: on an established connection that reads, is registered and has no
-- other task waiting, the connection callback is made down twice and the close callback twice, and
-- of the two connectDestroyed that follow, one for each close callback, the second fails its assert.
pub closes_twice :
    (c : Connection) (consume : Bytes → Bytes) (r : SendResult)
    → c.state ≡ connected
    → c.tasks ≡ []
    → c.channel.state ≡ add
    → is_recving c.channel ≡ true
    → contains c.poller.channels c.channel.fd ≡ true
    → ((c' : Connection) × (steps
            (force_closes ∷ readable consume (received []) ∷ next_task r ∷ [])
            c
          ≡ some c')
        × (c'.calls
            ≡ c.calls
              ++ (connection_call false ∷ close_call ∷ connection_call false ∷ close_call ∷ [])))
      × (steps
            (force_closes
              ∷ readable consume (received [])
              ∷ next_task r
              ∷ destroyed
              ∷ destroyed
              ∷ [])
            c
          ≡ none)
closes_twice c consume r s t a q m =
    let d = force_closed c in
    let c1 = closed add delete ctl_del d in
    let c2 = closed delete add ctl_add (record c1 { tasks = [] }) in
    let c3 =
      gone (record { op = ctl_del; fd = c.channel.fd; events = none_event } ∷ c2.poller.calls) c2 in
    let p = λ (os : List Op).
      steps_first force_closes _ c d
        ((step_ops c consume (received [])).3 ∙ ap some (force_close_lem c s t))
      ∙ steps_first (readable consume (received [])) _ d c1 (
          (step_ops d consume (received [])).2
          ∙ handle_recv_closes consume d q
          ∙ handle_close_added d a)
      ∙ steps_first (next_task r) os c1 c2
          (step_task c1 r refl ∙ handle_close_deleted (record c1 { tasks = [] }) refl m) in
    (
      (c2, p [] ∙ steps_done c2, simp append_assoc),
      p (destroyed ∷ destroyed ∷ [])
          ∙ steps_first destroyed _ c2 c3
              ((step_ops c2 consume (received [])).1 ∙ connect_destroyed_added c2 refl refl refl m)
          ∙ steps_fail destroyed [] c3 (
              (step_ops c3 consume (received [])).1
              ∙ connect_destroyed_missing c3 refl
                  (contains-erase_self c.poller.channels c.channel.fd)),
    )
