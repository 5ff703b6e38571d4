-- ===== src/Servers.antt =====
-- The small servers of the examples: src/examples/simple_server.cc and echoserver.cc. A server's
-- callback is a function to the calls that it makes on its connection, in order; `perform` makes them
-- on a connection of src/slite/TCPConnection.cc, in the thread of its loop. strftime and the clock are
-- parameters.
pub mod Echoing
pub mod Limit
pub mod Chargen
pub mod Query
mod Tests
use serverlite.Base.{
  ℕ, ◌+◌, ◌%◌, ◌^◌, suc, Bool, true, false, Option, some, none, List, [], ◌∷◌, ◌++◌, Bytes,
  bytes_eq, codes, if◌then◌else◌,
}
use serverlite.Base.Digits.{to_string}
use serverlite.Base.Words.{ℤ, pos, negsuc, be32, read_be32, int32}
use serverlite.Tcp.Connection.{
  Connection, SendResult, RecvResult, received, ◌>>=◌, send, shutdown, handle_recv, handle_send,
}

-- What a callback calls: send, shutdown, and quit of the loop, which leaves the connection alone.
pub data Act : Type 0 where
  sends_text : Bytes → Act
  shuts quits : Act

-- The calls of a message callback, and what it leaves in the buffer.
pub record Reply : Type 0 where
  pub acts : List Act
  pub left : Bytes

-- EchoServer::onMessage and DiscardServer::onMessage of simple_server.cc.
abbrev pub echo : Bytes → Reply
echo buffer = record { acts = sends_text buffer ∷ []; left = [] }

abbrev pub discard : Bytes → Reply
discard buffer = record { acts = []; left = [] }

-- DaytimeServer::onConnection; `text` is what strftime wrote.
pub daytime : Bytes → Bool → List Act
daytime text up = if up then sends_text text ∷ shuts ∷ [] else []

-- std::to_string of an int.
abbrev pub int_to_string : ℤ → Bytes
int_to_string (pos n) = to_string n
int_to_string (negsuc n) = codes "-" ++ to_string (n + 1)

-- htobe32 on a little-endian machine.
abbrev pub reverse_bytes : Bytes → Bytes
reverse_bytes (a ∷ b ∷ c ∷ d ∷ rest) = d ∷ c ∷ b ∷ a ∷ []
reverse_bytes other = other

pub htobe32 : ℕ → ℕ
htobe32 n = read_be32 (reverse_bytes (be32 n))

-- TimeServer::onConnection at the time `now`.
pub time : ℕ → Bool → List Act
unfolding htobe32
time now up =
    if up then sends_text (int_to_string (int32 (htobe32 (now % 2 ^ 32)))) ∷ shuts ∷ [] else []

-- EchoServer::onConnection and onMessage of echoserver.cc.
abbrev pub greet : List Act
greet = sends_text (codes "hello" ++ 10 ∷ []) ∷ []

abbrev pub is_line : Bytes → Bytes → Bool
is_line word msg = bytes_eq msg (word ++ 10 ∷ [])

pub echo_or_exit : Bytes → Reply
echo_or_exit buf = record {
  acts =
      (if is_line (codes "exit") buf then sends_text (codes "bye" ++ 10 ∷ []) ∷ shuts ∷ [] else [])
      ++ ((if is_line (codes "quit") buf then quits ∷ [] else []) ++ sends_text buf ∷ []);
  left = [];
}

-- The calls on the connection; `answer` are the kernel's answers to ::send, in order.
abbrev pub act : Act → SendResult → Connection → Option Connection
act (sends_text bytes) r c = send true bytes r c
act shuts r c = some (shutdown true c)
act quits r c = some c

pub perform : List Act → (ℕ → SendResult) → Connection → Option Connection
perform [] answer c = some c
perform (a ∷ acts) answer c = act a (answer 0) c >>= perform acts (λ i. answer (suc i))

-- What happens to a connection of a server: bytes come in and the message callback is called, or
-- the socket takes more of what waits.
pub data Event : Type 0 where
  incoming : ℕ → Bytes → (ℕ → SendResult) → Event
  drains : SendResult → Event

module _ (on_message : Bytes → Reply) where
  pub serve_event : Event → Connection → Option Connection
  unfolding perform
  serve_event (incoming b bs answer) c =
      handle_recv (λ buf. (on_message buf).left) (received (b ∷ bs)) c
      >>= perform (on_message (c.recv_buffer ++ (b ∷ bs))).acts answer
  serve_event (drains r) c = handle_send r c

  pub serve : List Event → Connection → Option Connection
  unfolding serve_event
  serve [] c = some c
  serve (e ∷ es) c = serve_event e c >>= serve es
