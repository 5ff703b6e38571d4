-- ===== src/Tcp/Connection/Output.antt =====
-- The bytes that a connection of src/slite/TCPConnection.cc puts on its socket.
use serverlite.Base.{
  ℕ, Bool, true, false, not, ◌&&◌, some, none, List, [], ◌∷◌, ◌++◌, Bytes, take, drop, is_empty,
  if◌then◌else◌, ◌≡◌, refl, sym, ap, ◌∙◌, arith, take-append-drop, append-nil, append_assoc,
  Bool-cases, Option-cases, inl, inr,
}
use serverlite.Reactor.Channel.{is_sending}
use serverlite.Tcp.Connection.{
  Connection, SendResult, sent, send_error, received, recv_error, Task, send_in_loop_task,
  shutdown_in_loop_task, handle_close_task, write_complete_task, Op, established, destroyed,
  force_closes, sends, shuts_down, readable, writable, next_task, step, steps, epipe, econnreset,
  send_direct, write, push_task, is_disconnected, is_broken, taken, has_failed, send_in_loop,
  append_output, handle_send, run_first,
}

-- What has gone to the socket, and behind it what waits in sendBuffer_.
abbrev pub stream : Connection → Bytes
stream c = c.socket.output ++ c.send_buffer

-- The part of `bytes` that sendInLoop takes on: nothing on a connection that is down, nothing where
-- the socket is found broken, and else all of it.
abbrev pub taken_on : Bytes → SendResult → Connection → Bytes
taken_on bytes r c =
    if is_disconnected c.state
    then []
    else if (not (is_sending c.channel) && is_empty c.send_buffer) && is_broken r
    then []
    else bytes

abbrev pub taken_on_first : List Task → SendResult → Connection → Bytes
taken_on_first (send_in_loop_task bytes ∷ ts) r c = taken_on bytes r c
taken_on_first _ r c = []

-- The same for a step: only a send in the loop's thread, and a send that was handed over, add bytes.
abbrev pub accepted : Op → Connection → Bytes
accepted (sends true bytes r) c = taken_on bytes r c
accepted (next_task r) c = taken_on_first c.tasks r c
accepted _ c = []

pub append_output_lem :
    (broken : Bool) (rest : Bytes) (c c' : Connection)
    → append_output broken rest c ≡ some c'
    → (c'.socket ≡ c.socket) × (c'.send_buffer ≡ c.send_buffer ++ (if broken then [] else rest))
unfolding append_output
append_output_lem true rest c c' e = ground (arith, append-nil c.send_buffer)
append_output_lem false [] c c' e = ground (arith, append-nil c.send_buffer)
append_output_lem false (b ∷ rest) c c' e = ground arith

pub push_if :
    (b : Bool) (t : Task) (c : Connection)
    → ((if b then push_task t c else c).socket ≡ c.socket)
      × ((if b then push_task t c else c).send_buffer ≡ c.send_buffer)
push_if true t c = (refl, refl)
push_if false t c = (refl, refl)

pub cut : (out bytes : Bytes) (n : ℕ) → (out ++ take n bytes) ++ drop n bytes ≡ out ++ bytes
cut out bytes n =
    append_assoc out (take n bytes) (drop n bytes) ∙ ap (◌++◌ out) (take-append-drop n bytes)

pub send_direct_lem :
    (bytes : Bytes) (r : SendResult) (c c' : Connection)
    → send_direct bytes r c ≡ some c'
    → (c'.socket ≡ (write bytes r c).socket)
      × (c'.send_buffer
          ≡ (write bytes r c).send_buffer ++ (if is_broken r then [] else drop (taken r) bytes))
unfolding send_direct
send_direct_lem bytes r c c' e =
    let c1 = write bytes r c in
    let done = not (has_failed r) && is_empty (drop (taken r) bytes) && c.has_write_complete in
    let p = push_if done write_complete_task c1 in
    let q = append_output_lem (is_broken r) (drop (taken r) bytes) _ c' e in
    (
      q.0 ∙ p.0,
      q.1 ∙ ap (λ (b : Bytes). b ++ (if is_broken r then [] else drop (taken r) bytes)) p.1,
    )

send_direct-stream :
    (bytes : Bytes) (r : SendResult) (c c' : Connection)
    → c.send_buffer ≡ []
    → send_direct bytes r c ≡ some c'
    → stream c' ≡ stream c ++ (if is_broken r then [] else bytes)
send_direct-stream bytes (sent n) c c' nil e =
    let q = send_direct_lem bytes (sent n) c c' e in
    rw (q.0, q.1, nil, append-nil c.socket.output) (cut c.socket.output bytes n)
send_direct-stream bytes (send_error epipe) c c' nil e =
    let q = send_direct_lem bytes (send_error epipe) c c' e in
    rw (q.0, q.1, nil) (sym (append-nil (c.socket.output ++ [])))
send_direct-stream bytes (send_error econnreset) c c' nil e =
    let q = send_direct_lem bytes (send_error econnreset) c c' e in
    rw (q.0, q.1, nil) (sym (append-nil (c.socket.output ++ [])))
send_direct-stream bytes (send_error x) c c' nil e =
    let q = send_direct_lem bytes (send_error x) c c' e in
    rw (q.0, q.1, nil, append-nil c.socket.output)

pub is_empty→nil : (b : Bytes) → is_empty b ≡ true → b ≡ []
is_empty→nil [] h = refl
is_empty→nil (x ∷ b) h = cc

pub send_in_loop-stream :
    (bytes : Bytes) (r : SendResult) (c c' : Connection)
    → send_in_loop bytes r c ≡ some c'
    → stream c' ≡ stream c ++ taken_on bytes r c
unfolding send_in_loop
send_in_loop-stream bytes r c c' e = elim (Bool-cases (is_disconnected c.state)) [
  | inl down ↦ let same = rw down at e in rw down (ground (arith, append-nil (stream c)))
  | inr up ↦ elim (Bool-cases (not (is_sending c.channel) && is_empty c.send_buffer)) [
    | inl direct ↦
        rw (up, direct)
          (send_direct-stream bytes r c c' (is_empty→nil c.send_buffer (ground arith))
            (rw (up, direct) at e))
    | inr queued ↦
        let q = append_output_lem false bytes c c' (rw (up, queued) at e) in
        rw (up, queued, q.0, q.1) (sym (append_assoc c.socket.output c.send_buffer bytes))
  ]
]

-- handleSend moves the bytes that the socket takes from the buffer to the output, and no others.
pub handle_send-stream :
    (r : SendResult) (c c' : Connection) → handle_send r c ≡ some c' → stream c' ≡ stream c
unfolding handle_send
handle_send-stream r c c' e = ground (arith, cut c.socket.output c.send_buffer (taken r))

run_first-stream :
    (ts : List Task) (r : SendResult) (c c' : Connection)
    → run_first ts r c ≡ some c'
    → stream c' ≡ stream c ++ taken_on_first ts r c
unfolding run_first
run_first-stream [] r c c' e = ground (arith, append-nil (stream c))
run_first-stream (send_in_loop_task bytes ∷ ts) r c c' e =
    send_in_loop-stream bytes r (record c { tasks = ts }) c' e
run_first-stream (shutdown_in_loop_task ∷ ts) r c c' e = ground (arith, append-nil (stream c))
run_first-stream (handle_close_task ∷ ts) r c c' e = ground (arith, append-nil (stream c))
run_first-stream (write_complete_task ∷ ts) r c c' e = ground (arith, append-nil (stream c))

step-stream :
    (o : Op) (c c' : Connection) → step o c ≡ some c' → stream c' ≡ stream c ++ accepted o c
unfolding step
step-stream established c c' e = ground (arith, append-nil (stream c))
step-stream destroyed c c' e = ground (arith, append-nil (stream c))
step-stream force_closes c c' e = ground (arith, append-nil (stream c))
step-stream (sends true bytes r) c c' e = send_in_loop-stream bytes r c c' e
step-stream (sends false bytes r) c c' e = ground (arith, append-nil (stream c))
step-stream (shuts_down in_loop) c c' e = ground (arith, append-nil (stream c))
step-stream (readable consume (received [])) c c' e = ground (arith, append-nil (stream c))
step-stream (readable consume (received (b ∷ bs))) c c' e = ground (arith, append-nil (stream c))
step-stream (readable consume (recv_error x)) c c' e = ground (arith, append-nil (stream c))
step-stream (writable r) c c' e = handle_send-stream r c c' e ∙ sym (append-nil (stream c))
step-stream (next_task r) c c' e = run_first-stream c.tasks r c c' e

-- The bytes taken on along a history, which breaks off at a failed assert.
unfoldable pub accepted_all : List Op → Connection → Bytes
accepted_all [] c = []
accepted_all (o ∷ os) c =
    accepted o c ++ elim (step o c) [ none ↦ [] | some c' ↦ accepted_all os c' ]

-- Along any history of sends, channel events, closes and tasks, in any order and with any answers
-- of the kernel, what went to the socket with what waits in the buffer behind it is what was there
-- before, followed by exactly the data that the connection took on, in the order of the sends:
-- none of it is lost, doubled or overtaken.
pub steps-stream :
    (os : List Op) (c c' : Connection)
    → steps os c ≡ some c'
    → stream c' ≡ stream c ++ accepted_all os c
unfolding steps accepted_all
steps-stream [] c c' e = ground (arith, append-nil (stream c))
steps-stream (o ∷ os) c c' e = elim (Option-cases (step o c)) [
  | inl failed ↦ absurd (cc (rw failed at e))
  | inr (d, q) ↦
      rw (q, steps-stream os d c' (rw q at e), step-stream o c d q)
        (append_assoc (stream c) (accepted o c) (accepted_all os d))
]
