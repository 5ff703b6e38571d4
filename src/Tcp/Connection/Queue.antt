-- ===== src/Tcp/Connection/Queue.antt =====
-- What a connection of src/slite/TCPConnection.cc promises for the bytes handed to it, as an
-- abstract byte queue: one end takes data, and the other puts some of it on the wire.
use serverlite.Base.{
  ℕ, true, false, not, ◌&&◌, some, none, List, [], ◌∷◌, ◌++◌, Bytes, take, drop, is_empty, ltb,
  if◌then◌else◌, ◌≡◌, sym, ◌∙◌, arith, append-nil, Bool-cases, Option-cases, inl, inr,
}
use serverlite.Reactor.Channel.{is_sending}
use serverlite.Tcp.Connection.{
  Connection, SendResult, sent, send_error, received, recv_error, Task, send_in_loop_task,
  shutdown_in_loop_task, handle_close_task, write_complete_task, Op, established, destroyed,
  force_closes, sends, shuts_down, readable, writable, next_task, step, steps, epipe, econnreset,
  send_direct, is_disconnected, is_broken, send_in_loop, handle_send, run_first,
}
use serverlite.Tcp.Connection.Output.{
  taken_on, taken_on_first, accepted, append_output_lem, send_direct_lem, is_empty→nil,
}

pub record Queue : Type 0 where
  pub gone : Bytes
  pub waiting : Bytes

abbrev pub enqueue : Bytes → Queue → Queue
enqueue bytes q = record { gone = q.gone; waiting = q.waiting ++ bytes }

abbrev pub transmit : ℕ → Queue → Queue
transmit n q = record { gone = q.gone ++ take n q.waiting; waiting = drop n q.waiting }

-- The queue takes each of the chunks in turn, and after each puts some of what waits on the wire.
abbrev pub Transfers : List Bytes → Queue → Queue → Type 0
Transfers [] q r = r ≡ q
Transfers (b ∷ bs) q r = (n : ℕ) × Transfers bs (transmit n (enqueue b q)) r

-- The queue that a connection shows.
abbrev pub view : Connection → Queue
view c = record { gone = c.socket.output; waiting = c.send_buffer }

abbrev Refines : Bytes → Connection → Connection → Type 0
Refines bytes c c' = (n : ℕ) × (view c' ≡ transmit n (enqueue bytes (view c)))

queue_eq :
    (c : Connection) (g w : Bytes)
    → c.socket.output ≡ g
    → c.send_buffer ≡ w
    → view c ≡ record { gone = g; waiting = w }
queue_eq c g w p q = rw (p, q)

-- Nothing is taken on and nothing goes out.
idle :
    (c c' : Connection)
    → c'.socket.output ≡ c.socket.output
    → c'.send_buffer ≡ c.send_buffer
    → Refines [] c c'
idle c c' p q =
    (0, queue_eq c' _ _ (p ∙ sym (append-nil c.socket.output)) (q ∙ sym (append-nil c.send_buffer)))

send_direct-refines :
    (bytes : Bytes) (r : SendResult) (c c' : Connection)
    → c.send_buffer ≡ []
    → send_direct bytes r c ≡ some c'
    → Refines (if is_broken r then [] else bytes) c c'
send_direct-refines bytes (sent n) c c' nil e =
    let q = send_direct_lem bytes (sent n) c c' e in
    (n, rw nil (queue_eq c' _ _ (rw (q.0)) (rw (q.1, nil))))
send_direct-refines bytes (send_error epipe) c c' nil e =
    let q = send_direct_lem bytes (send_error epipe) c c' e in idle c c' (rw (q.0)) (rw (q.1, nil))
send_direct-refines bytes (send_error econnreset) c c' nil e =
    let q = send_direct_lem bytes (send_error econnreset) c c' e in
    idle c c' (rw (q.0)) (rw (q.1, nil))
send_direct-refines bytes (send_error x) c c' nil e =
    let q = send_direct_lem bytes (send_error x) c c' e in
    (0, rw nil (queue_eq c' _ _ (rw (q.0, append-nil c.socket.output)) (rw (q.1, nil))))

send_in_loop-refines :
    (bytes : Bytes) (r : SendResult) (c c' : Connection)
    → send_in_loop bytes r c ≡ some c'
    → Refines (taken_on bytes r c) c c'
unfolding send_in_loop
send_in_loop-refines bytes r c c' e = elim (Bool-cases (is_disconnected c.state)) [
  | inl down ↦ rw down (let same = rw down at e in idle c c' (ground arith) (ground arith))
  | inr up ↦ elim (Bool-cases (not (is_sending c.channel) && is_empty c.send_buffer)) [
    | inl direct ↦
        rw (up, direct)
          (send_direct-refines bytes r c c' (is_empty→nil c.send_buffer (ground arith))
            (rw (up, direct) at e))
    | inr queued ↦
        let q = append_output_lem false bytes c c' (rw (up, queued) at e) in
        rw (up, queued) (0, queue_eq c' _ _ (rw (q.0, append-nil c.socket.output)) (q.1))
  ]
]

handle_send-refines :
    (r : SendResult) (c c' : Connection) → handle_send r c ≡ some c' → Refines [] c c'
unfolding handle_send
handle_send-refines (send_error x) c c' e = idle c c' (ground arith) (ground arith)
handle_send-refines (sent n) c c' e = elim (Bool-cases (is_sending c.channel && ltb 0 n)) [
  | inl on ↦ (n, rw (append-nil c.send_buffer) (queue_eq c' _ _ (ground arith) (ground arith)))
  | inr off ↦ idle c c' (ground arith) (ground arith)
]

run_first-refines :
    (ts : List Task) (r : SendResult) (c c' : Connection)
    → run_first ts r c ≡ some c'
    → Refines (taken_on_first ts r c) c c'
unfolding run_first
run_first-refines [] r c c' e = idle c c' (ground arith) (ground arith)
run_first-refines (send_in_loop_task bytes ∷ ts) r c c' e =
    send_in_loop-refines bytes r (record c { tasks = ts }) c' e
run_first-refines (shutdown_in_loop_task ∷ ts) r c c' e = idle c c' (ground arith) (ground arith)
run_first-refines (handle_close_task ∷ ts) r c c' e = idle c c' (ground arith) (ground arith)
run_first-refines (write_complete_task ∷ ts) r c c' e = idle c c' (ground arith) (ground arith)

step-refines : (o : Op) (c c' : Connection) → step o c ≡ some c' → Refines (accepted o c) c c'
unfolding step
step-refines established c c' e = idle c c' (ground arith) (ground arith)
step-refines destroyed c c' e = idle c c' (ground arith) (ground arith)
step-refines force_closes c c' e = idle c c' (ground arith) (ground arith)
step-refines (sends true bytes r) c c' e = send_in_loop-refines bytes r c c' e
step-refines (sends false bytes r) c c' e = idle c c' (ground arith) (ground arith)
step-refines (shuts_down in_loop) c c' e = idle c c' (ground arith) (ground arith)
step-refines (readable consume (received [])) c c' e = idle c c' (ground arith) (ground arith)
step-refines (readable consume (received (b ∷ bs))) c c' e = idle c c' (ground arith) (ground arith)
step-refines (readable consume (recv_error x)) c c' e = idle c c' (ground arith) (ground arith)
step-refines (writable r) c c' e = handle_send-refines r c c' e
step-refines (next_task r) c c' e = run_first-refines c.tasks r c c' e

-- What each step of a history takes on.
pub accepted_each : List Op → Connection → List Bytes
accepted_each [] c = []
accepted_each (o ∷ os) c =
    accepted o c ∷ elim (step o c) [ none ↦ [] | some c' ↦ accepted_each os c' ]

-- A connection refines the byte queue: along any history of sends, channel events, closes and
-- tasks that meets no failed assert, in any order and with any answers of the kernel, what is on
-- the socket and what waits in sendBuffer_ are those of a queue that takes what each step takes on,
-- at its end, and after each puts some number of bytes from its front on the wire.
pub steps-refine :
    (os : List Op) (c c' : Connection)
    → steps os c ≡ some c'
    → Transfers (accepted_each os c) (view c) (view c')
unfolding steps accepted_each
steps-refine [] c c' e = ground arith
steps-refine (o ∷ os) c c' e = elim (Option-cases (step o c)) [
  | inl failed ↦ absurd (cc (rw failed at e))
  | inr (d, q) ↦
      let s = step-refines o c d q in rw q (s.0, rw (sym s.1) (steps-refine os d c' (rw q at e)))
]
