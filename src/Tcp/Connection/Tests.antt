-- ===== src/Tcp/Connection/Tests.antt =====
-- Runs of a connection.
use serverlite.Base.{◌≡◌, refl, true, false, some, none, List, [], ◌∷◌, codes}
use serverlite.Base.Maps.{insert}
use serverlite.Reactor.Channel.{
  make_channel, add, ctl_add, ctl_mod, enable_recv, enable_send, disable_send,
}
use serverlite.Tcp.Connection.{
  Connection, connecting, connected, disconnecting, sent, received, Op, established, destroyed,
  force_closes, sends, shuts_down, readable, writable, next_task, step, steps, connection_call,
  close_call,
}
use serverlite.Tcp.Connection.Queue.{Transfers, view, accepted_each, steps-refine}
use serverlite.Tcp.Connection.Draining.{IsDraining, step-IsDraining}
use serverlite.Tcp.Connection.Shutting.{step_shuts_drained}
use serverlite.Tcp.Connection.Closing.{lifecycle, closes_twice}

-- TCPConnection as the server makes it.
abbrev fresh : Connection
fresh = record {
  recv_buffer = [];
  send_buffer = [];
  socket = record { output = []; shut = false };
  state = connecting;
  channel = make_channel 1000 7;
  poller = record { channels = λ fd. none; calls = [] };
  has_write_complete = false;
  tasks = [];
  calls = [];
}

-- After connectEstablished.
abbrev pub ready : Connection
ready = record fresh {
  state = connected;
  channel = record {
    addr = 1000;
    fd = 7;
    events = record { recv_event = true; send_event = false };
    tied = true;
    state = add;
  };
  poller = record {
    channels = insert (λ fd. none) 7 1000;
    calls =
        record { op = ctl_add; fd = 7; events = record { recv_event = true; send_event = false } }
        ∷ [];
  };
  calls = connection_call true ∷ [];
}

established_ready : step established fresh ≡ some ready
unfolding step enable_recv
established_ready = refl

-- "hello" sent, of which the socket takes two bytes; "!" sent behind it, from another thread; then
-- the socket takes two more.
abbrev history : List Op
history =
    sends true (codes "hello") (sent 2)
    ∷ sends false (codes "!") (sent 0)
    ∷ next_task (sent 0)
    ∷ writable (sent 2)
    ∷ []

abbrev waiting : Connection
waiting = record ready {
  socket = record { output = codes "hell"; shut = false };
  send_buffer = codes "o!";
  channel = record ready.channel { events = record { recv_event = true; send_event = true } };
  poller = record ready.poller {
    calls =
        record { op = ctl_mod; fd = 7; events = record { recv_event = true; send_event = true } }
        ∷ ready.poller.calls;
  };
}

ran_history : steps history ready ≡ some waiting
unfolding steps enable_send
ran_history = refl

steps-refine_example : Transfers (accepted_each history ready) (view ready) (view waiting)
steps-refine_example = steps-refine history ready waiting ran_history

-- A shutdown called while bytes wait, and the rest of them taken.
abbrev closing : Connection
closing = record waiting { state = disconnecting }

abbrev closed : Connection
closed = record closing {
  socket = record { output = codes "hello!"; shut = true };
  send_buffer = [];
  channel = ready.channel;
  poller = record ready.poller {
    calls =
        record { op = ctl_mod; fd = 7; events = record { recv_event = true; send_event = false } }
        ∷ waiting.poller.calls;
  };
}

shutdown_waits : step (shuts_down true) waiting ≡ some closing
unfolding step
shutdown_waits = refl

writable-closed : step (writable (sent 2)) closing ≡ some closed
unfolding step disable_send
writable-closed = refl

step-IsDraining_example : IsDraining closed
step-IsDraining_example =
    step-IsDraining (writable (sent 2)) closing closed tt writable-closed (λ _. refl)

step_shuts_drained_example : closed.send_buffer ≡ []
step_shuts_drained_example =
    step_shuts_drained (writable (sent 2)) closing closed tt (λ _. refl) writable-closed refl refl
      refl

lifecycle_example :
    (c' : Connection) × (steps
        (established ∷ readable (λ b. []) (received []) ∷ destroyed ∷ [])
        fresh
      ≡ some c')
    × (c'.calls ≡ connection_call true ∷ connection_call false ∷ close_call ∷ [])
    × (c'.poller.channels 7 ≡ none)
lifecycle_example = lifecycle fresh (λ b. []) refl refl refl refl

closes_twice_example :
    ((c' : Connection) × (steps
          (force_closes ∷ readable (λ b. []) (received []) ∷ next_task (sent 0) ∷ [])
          ready
        ≡ some c')
      × (c'.calls
          ≡ connection_call true
            ∷ connection_call false
            ∷ close_call
            ∷ connection_call false
            ∷ close_call
            ∷ []))
    × (steps
          (force_closes
            ∷ readable (λ b. []) (received [])
            ∷ next_task (sent 0)
            ∷ destroyed
            ∷ destroyed
            ∷ [])
          ready
        ≡ none)
closes_twice_example = closes_twice ready (λ b. []) (sent 0) refl refl refl refl refl
