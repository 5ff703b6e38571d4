-- ===== src/Link/Tests.antt =====
-- Two messages from one connection to another.
use serverlite.Base.{
  ◌≡◌, refl, [], ◌∷◌, ◌++◌, List, Bytes, map, take, drop, concat, some, true, false,
}
use serverlite.Reactor.Channel.{enable_send, disable_send, ctl_mod}
use serverlite.Tcp.Connection.{Connection, Op, sends, writable, sent, step, steps}
use serverlite.Tcp.Connection.Output.{accepted_all}
use serverlite.Tcp.Connection.Tests.{ready}
use serverlite.Protobuf.Toy.{toy}
use serverlite.Protobuf.Codec.{message, fill_empty_buffer}
use serverlite.Protobuf.Codec.Tests.{query, answer, query-IsSendable, answer-IsSendable}
use serverlite.Base.Words.{be32}
use serverlite.Link.{reads, delivered, link_delivers}

abbrev frames : Bytes
frames = fill_empty_buffer toy query ++ fill_empty_buffer toy answer

-- The socket takes nine bytes of the first frame at once, and the rest later.
abbrev history : List Op
history =
    sends true (fill_empty_buffer toy query) (sent 9)
    ∷ sends true (fill_empty_buffer toy answer) (sent 0)
    ∷ writable (sent 30)
    ∷ []

abbrev drained : Connection
drained = record ready {
  socket = record { output = frames; shut = false };
  poller = record ready.poller {
    calls =
        record { op = ctl_mod; fd = 7; events = record { recv_event = true; send_event = false } }
        ∷ record { op = ctl_mod; fd = 7; events = record { recv_event = true; send_event = true } }
        ∷ ready.poller.calls;
  };
}

ran_history : steps history ready ≡ some drained
unfolding steps enable_send disable_send fill_empty_buffer be32
ran_history = refl

taken_on_frames :
    accepted_all history ready ≡ concat (map (fill_empty_buffer toy) (query ∷ answer ∷ []))
unfolding accepted_all step enable_send disable_send fill_empty_buffer be32
taken_on_frames = refl

-- The bytes arrive in three reads.
link_delivers_example :
    (d : Connection) × (steps
        (reads toy (take 5 frames ∷ take 20 (drop 5 frames) ∷ drop 25 frames ∷ []))
        ready
      ≡ some d)
    × (d.recv_buffer ≡ [])
    × (delivered toy d.calls ≡ delivered toy ready.calls ++ map message (query ∷ answer ∷ []))
unfolding fill_empty_buffer be32
link_delivers_example =
    link_delivers toy (query ∷ answer ∷ []) history ready drained
      (take 5 frames ∷ take 20 (drop 5 frames) ∷ drop 25 frames ∷ []) ready
      (query-IsSendable, (answer-IsSendable, tt)) refl refl ran_history taken_on_frames refl refl tt
      refl refl
