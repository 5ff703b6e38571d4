-- ===== src/Servers/Tests.antt =====
-- Runs of the small servers.
use serverlite.Base.{
  ℕ, length, Bool, Bytes, drop, if◌then◌else◌, ◌==◌, ◌≡◌, ◌++◌, refl, arith, true, some, List, [],
  ◌∷◌, codes, bytes_eq,
}
use serverlite.Base.Words.{pos, be32, read_be32}
use serverlite.Base.Digits.{to_string}
use serverlite.Tcp.Connection.{
  Connection, write_complete_task, disconnecting, sent, send_error, eintr,
}
use serverlite.Tcp.Connection.Output.{stream}
use serverlite.Tcp.Connection.Live.{IsLive}
use serverlite.Tcp.Connection.Tests.{ready}
use serverlite.Servers.{
  Event, serve_event, incoming, drains, echo, echo_or_exit, serve, sends_text, shuts, time,
}
use serverlite.Servers.Echoing.{serve-echo}
use serverlite.Servers.Query.{query_server, serve_event-query}
use serverlite.Protobuf.Toy.{toy}
use serverlite.Protobuf.Codec.{message, fill_empty_buffer, on_message}
use serverlite.Protobuf.Codec.Tests.{query, answer, query-IsSendable, answer-IsSendable}
use serverlite.Servers.Chargen.{
  create_message, Chargen, writable, completes, run, GoesBy, run-GoesBy,
}
use serverlite.Servers.Limit.{Server, make_server, comes, goes, events, IsLimited, events-IsLimited}

-- The text is a number of the bytes in the other order: 1 is sent as 2 ^ 24.
time_at_one : time 1 true ≡ sends_text (codes "16777216") ∷ shuts ∷ []
unfolding time be32 read_be32 to_string
time_at_one = refl

-- The line goes back to a client after the shutdown as well.
exit_line :
    (echo_or_exit (codes "exit" ++ 10 ∷ [])).acts
    ≡ sends_text (codes "bye" ++ 10 ∷ []) ∷ shuts ∷ sends_text (codes "exit" ++ 10 ∷ []) ∷ []
unfolding echo_or_exit bytes_eq
exit_line = refl

-- Two reads, of which the socket takes a part; the last write is interrupted.
abbrev two_reads : List Event
two_reads =
    incoming 104 (codes "ello") (λ i. sent 3)
    ∷ drains (sent 1)
    ∷ incoming 33 [] (λ i. send_error eintr)
    ∷ []

serve-echo_example :
    (c' : Connection) × (serve echo two_reads ready ≡ some c')
    × IsLive c'
    × (c'.recv_buffer ≡ [])
    × (stream c' ≡ codes "hello!")
serve-echo_example =
    serve-echo two_reads ready ((λ i. refl), ((λ i. refl), tt))
      (record { up = refl; registered = refl; reads = refl }) refl

-- With room for two, the third of three connections is told to close.
abbrev full : Server
full = record { num_connected = pos 2; serving = 2 ∷ []; closing = 3 ∷ [] }

ran_full : events 2 (comes 1 ∷ comes 2 ∷ comes 3 ∷ goes 1 ∷ []) make_server ≡ some full
unfolding events
ran_full = refl

events-IsLimited_example : IsLimited 2 full
events-IsLimited_example =
    events-IsLimited 2 (comes 1 ∷ comes 2 ∷ comes 3 ∷ goes 1 ∷ []) make_server full ran_full
      (record { counts = refl; limit = omega arith })

-- A message of type Q has the descriptor 1, any other 2.
abbrev descriptor : toy.Message → ℕ
descriptor m = if bytes_eq m.0 (codes "Q") then 1 else 2

abbrev casts : ℕ → toy.Message → Bool
casts d m = descriptor m == d

abbrev query_bytes : Bytes
query_bytes = drop 1 (fill_empty_buffer toy query)

query_frame : fill_empty_buffer toy query ≡ 0 ∷ query_bytes
unfolding fill_empty_buffer be32
query_frame = refl

serve_event-query_example :
    (c' : Connection) × (serve_event
        (query_server toy descriptor casts 1 2 answer)
        (incoming 0 query_bytes (λ i. sent 5))
        ready
      ≡ some c')
    × (c'.recv_buffer ≡ [])
    × (c'.state ≡ disconnecting)
    × (stream c' ≡ stream ready ++ fill_empty_buffer toy answer)
    × (on_message toy (fill_empty_buffer toy answer) ≡ (message answer ∷ [], []))
unfolding bytes_eq
serve_event-query_example =
    serve_event-query toy descriptor casts 1 2 answer query 0 query_bytes (λ i. sent 5) ready
      query-IsSendable answer-IsSendable refl refl (λ e. absurd (omega (arith, e))) query_frame refl
      (record { up = refl; registered = refl; reads = refl }) refl

message_size : length create_message ≡ 6862
unfolding create_message
message_size = refl

-- A completed write, and one that is interrupted.
abbrev generating : Chargen
generating = record {
  conn = record ready { has_write_complete = true; tasks = write_complete_task ∷ [] };
  message_count = 0;
}

run-GoesBy_example :
    (n : ℕ) × GoesBy n generating (
      run
        (completes (sent 100) ∷ writable (sent 6000) ∷ completes (send_error eintr) ∷ [])
        generating)
run-GoesBy_example =
    run-GoesBy (completes (sent 100) ∷ writable (sent 6000) ∷ completes (send_error eintr) ∷ [])
      generating (refl, (refl, tt)) (record { up = refl; registered = refl; reads = refl })
