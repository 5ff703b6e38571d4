-- ===== src/Tcp/Connection/Live.antt =====
-- A connection of src/slite/TCPConnection.cc that is up: its sends, and the events of its channel, meet
-- no failed assert and leave it up.
use serverlite.Base.{
  ℕ, Bool, true, false, not, ◌&&◌, Option, some, [], ◌∷◌, ◌++◌, Bytes, drop, is_empty,
  if◌then◌else◌, ◌≡◌, refl, arith, ap, sym, append-nil, ◌∙◌, Bool-cases, inl, inr, ltb,
}
use serverlite.Reactor.Channel.{
  Channel, Poller, add, is_sending, is_recving, enable_send, disable_send, Events, ctl_mod,
}
use serverlite.Tcp.Connection.{
  Connection, connected, SendResult, Task, write_complete_task, push_task, is_broken, taken,
  has_failed, shutdown, shutdown_in_loop, disconnecting, is_connected, write, append_output,
  send_direct, send_in_loop, finish_output, handle_send, handle_recv, message_call, sent,
  send_error, is_disconnected, is_disconnecting, received, send,
}
use serverlite.Tcp.Connection.Output.{taken_on, stream, send_in_loop-stream, handle_send-stream}

-- The connection is up, and its channel is registered with epoll and reads.
pub record IsLive (c : Connection) : Type 0 where
  pub up : c.state ≡ connected
  pub registered : c.channel.state ≡ add
  pub reads : is_recving c.channel ≡ true

-- The step succeeds, leaves the connection up, and leaves what was received alone.
abbrev Goes : Connection → Option Connection → Type 0
Goes c o = (c' : Connection) × (o ≡ some c') × IsLive c' × (c'.recv_buffer ≡ c.recv_buffer)

abbrev Updates : Option (Channel × Poller) → Type 0
Updates o =
    (ch : Channel) × (p : Poller) × (o ≡ some (ch, p)) × (ch.state ≡ add) × (is_recving ch ≡ true)

enable_send-Updates :
    (ch : Channel) (p : Poller) → ch.state ≡ add → is_recving ch ≡ true → Updates (enable_send ch p)
unfolding enable_send
enable_send-Updates ch p s r =
    let e : Events = record { recv_event = ch.events.recv_event; send_event = true } in
    (
      record ch { events = e },
      record p { calls = record { op = ctl_mod; fd = ch.fd; events = e } ∷ p.calls },
      ground arith,
      s,
      r,
    )

disable_send-Updates :
    (ch : Channel) (p : Poller)
    → ch.state ≡ add
    → is_recving ch ≡ true
    → Updates (disable_send ch p)
unfolding disable_send
disable_send-Updates ch p s r =
    let e : Events = record { recv_event = ch.events.recv_event; send_event = false } in
    (
      record ch { events = e },
      record p { calls = record { op = ctl_mod; fd = ch.fd; events = e } ∷ p.calls },
      ground arith,
      s,
      r,
    )

append_output-Goes :
    (broken : Bool) (rest : Bytes) (c : Connection)
    → IsLive c
    → Goes c (append_output broken rest c)
unfolding append_output
append_output-Goes broken rest c live =
    let (ch, p, e, s, r) = enable_send-Updates c.channel c.poller live.registered live.reads in
    elim (Bool-cases (not broken && not (is_empty rest))) [
      | inl more ↦ elim (Bool-cases (not (is_sending c.channel))) [
        | inl starts ↦
            rw (more, starts, e) (_, refl, record { up = live.up; registered = s; reads = r }, refl)
        | inr already ↦
            rw (more, already)
              (
                _,
                refl,
                record { up = live.up; registered = live.registered; reads = live.reads },
                refl,
              )
      ]
      | inr over ↦ rw over (c, refl, live, refl)
    ]

push_if-IsLive :
    (b : Bool) (t : Task) (c : Connection)
    → IsLive c
    → IsLive (if b then push_task t c else c)
      × ((if b then push_task t c else c).recv_buffer ≡ c.recv_buffer)
push_if-IsLive true t c l = (record { up = l.up; registered = l.registered; reads = l.reads }, refl)
push_if-IsLive false t c l = (l, refl)

write-IsLive :
    (bytes : Bytes) (r : SendResult) (c : Connection)
    → IsLive c
    → IsLive (write bytes r c) × ((write bytes r c).recv_buffer ≡ c.recv_buffer)
write-IsLive bytes (sent n) c l =
    (record { up = l.up; registered = l.registered; reads = l.reads }, refl)
write-IsLive bytes (send_error e) c l = (l, refl)

send_direct-Goes :
    (bytes : Bytes) (r : SendResult) (c : Connection) → IsLive c → Goes c (send_direct bytes r c)
unfolding send_direct
send_direct-Goes bytes r c live =
    let (l1, b1) = write-IsLive bytes r c live in
    let done = not (has_failed r) && is_empty (drop (taken r) bytes) && c.has_write_complete in
    let (l2, b2) = push_if-IsLive done write_complete_task (write bytes r c) l1 in
    let (c', e, l, b) = append_output-Goes (is_broken r) (drop (taken r) bytes) _ l2 in
    (c', e, l, b ∙ b2 ∙ b1)

-- Whatever ::send answers.
send_in_loop-Goes :
    (bytes : Bytes) (r : SendResult) (c : Connection) → IsLive c → Goes c (send_in_loop bytes r c)
unfolding send_in_loop
send_in_loop-Goes bytes r c live =
    let up = ap is_disconnected live.up in
    elim (Bool-cases (not (is_sending c.channel) && is_empty c.send_buffer)) [
      | inl direct ↦ rw (up, direct) (send_direct-Goes bytes r c live)
      | inr queued ↦ rw (up, queued) (append_output-Goes false bytes c live)
    ]

finish_output-Goes : (c : Connection) → IsLive c → Goes c (finish_output c)
unfolding finish_output
finish_output-Goes c live = elim (Bool-cases (is_empty c.send_buffer)) [
  | inl done ↦
      let (l1, b1) = push_if-IsLive c.has_write_complete write_complete_task c live in
      let (ch, p, e, s, r) = disable_send-Updates c.channel c.poller live.registered live.reads in
      rw (done, e) (_, refl, record { up = l1.up; registered = s; reads = r }, b1)
  | inr more ↦ rw more (c, refl, live, refl)
]

handle_send-Goes : (r : SendResult) (c : Connection) → IsLive c → Goes c (handle_send r c)
unfolding handle_send
handle_send-Goes r c live = elim (Bool-cases (is_sending c.channel && ltb 0 (taken r))) [
  | inl on ↦
      let (l1, b1) = write-IsLive c.send_buffer r c live in
      let (c', e, l, b) =
        finish_output-Goes
          (record (write c.send_buffer r c) { send_buffer = drop (taken r) c.send_buffer })
          (record { up = l1.up; registered = l1.registered; reads = l1.reads }) in
      let open_still = ap is_disconnecting l.up in rw (on, e) (c', rw open_still refl, l, b ∙ b1)
  | inr off ↦ rw off (c, refl, live, refl)
]

-- The connection stays up, and its stream grows by `bytes`.
abbrev pub Sends : Bytes → Connection → Option Connection → Type 0
Sends bytes c o =
    (c' : Connection) × (o ≡ some c')
    × IsLive c'
    × (c'.recv_buffer ≡ c.recv_buffer)
    × (stream c' ≡ stream c ++ bytes)

pub send-Sends :
    (bytes : Bytes) (r : SendResult) (c : Connection)
    → IsLive c
    → is_broken r ≡ false
    → Sends bytes c (send true bytes r c)
unfolding send
send-Sends bytes r c live sound =
    let (c', e, l, b) = send_in_loop-Goes bytes r c live in
    let up = ap is_disconnected live.up in
    let all : taken_on bytes r c ≡ bytes = ground arith in
    (c', e, l, b, send_in_loop-stream bytes r c c' e ∙ ap (◌++◌ (stream c)) all)

pub handle_send-Sends : (r : SendResult) (c : Connection) → IsLive c → Sends [] c (handle_send r c)
handle_send-Sends r c live =
    let (c', e, l, b) = handle_send-Goes r c live in
    (c', e, l, b, handle_send-stream r c c' e ∙ sym (append-nil (stream c)))

-- A read of some bytes, and the message callback.
pub handle_recv_bytes :
    (consume : Bytes → Bytes) (b : ℕ) (bs : Bytes) (c : Connection)
    → is_recving c.channel ≡ true
    → handle_recv consume (received (b ∷ bs)) c
      ≡ some (record c {
        recv_buffer = consume (c.recv_buffer ++ (b ∷ bs));
        calls = c.calls ++ message_call (c.recv_buffer ++ (b ∷ bs)) ∷ [];
      })
unfolding handle_recv
handle_recv_bytes consume b bs c on = ground arith

-- shutdown on a connection that is up.
pub shutdown_lem :
    (c : Connection)
    → IsLive c
    → ((shutdown true c).state ≡ disconnecting)
      × ((shutdown true c).recv_buffer ≡ c.recv_buffer)
      × (stream (shutdown true c) ≡ stream c)
unfolding shutdown shutdown_in_loop
shutdown_lem c live =
    let up = ap is_connected live.up in
    elim (Bool-cases (not (is_sending c.channel))) [
      | inl idle ↦ rw (up, idle) (refl, refl, refl)
      | inr sending ↦ rw (up, sending) (refl, refl, refl)
    ]
