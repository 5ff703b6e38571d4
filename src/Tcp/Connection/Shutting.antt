-- ===== src/Tcp/Connection/Shutting.antt =====
-- The shutdown of the write side in src/slite/TCPConnection.cc.
use serverlite.Base.{
  Bool, true, false, not, ◌&&◌, some, List, [], ◌∷◌, Bytes, drop, is_empty, if◌then◌else◌, ◌≡◌,
  refl, sym, ◌∙◌, arith, inl, inr, ◌⊎◌,
}
use serverlite.Reactor.Channel.{is_sending}
use serverlite.Tcp.Connection.{
  Connection, SendResult, sent, send_error, RecvResult, received, recv_error, Task,
  send_in_loop_task, shutdown_in_loop_task, handle_close_task, write_complete_task, Op, established,
  destroyed, force_closes, sends, shuts_down, readable, writable, next_task, step, send_direct,
  write, push_task, is_disconnected, is_broken, taken, has_failed, send_in_loop, append_output,
  handle_send, handle_recv, run_first,
}
use serverlite.Tcp.Connection.Draining.{IsAllowed, IsDraining, step-IsDraining}

write-shut :
    (bytes : Bytes) (r : SendResult) (c : Connection)
    → (write bytes r c).socket.shut ≡ c.socket.shut
write-shut bytes (sent n) c = refl
write-shut bytes (send_error e) c = refl

push_if-shut :
    (b : Bool) (t : Task) (c : Connection)
    → (if b then push_task t c else c).socket.shut ≡ c.socket.shut
push_if-shut true t c = refl
push_if-shut false t c = refl

append_output-shut :
    (broken : Bool) (rest : Bytes) (c c' : Connection)
    → append_output broken rest c ≡ some c'
    → c'.socket.shut ≡ c.socket.shut
unfolding append_output
append_output-shut true rest c c' e = ground arith
append_output-shut false [] c c' e = ground arith
append_output-shut false (x ∷ rest) c c' e = ground arith

send_direct-shut :
    (bytes : Bytes) (r : SendResult) (c c' : Connection)
    → send_direct bytes r c ≡ some c'
    → c'.socket.shut ≡ c.socket.shut
unfolding send_direct
send_direct-shut bytes r c c' e =
    let done = not (has_failed r) && is_empty (drop (taken r) bytes) && c.has_write_complete in
    append_output-shut (is_broken r) (drop (taken r) bytes) _ c' e
    ∙ push_if-shut done write_complete_task (write bytes r c)
    ∙ write-shut bytes r c

send_in_loop-shut :
    (bytes : Bytes) (r : SendResult) (c c' : Connection)
    → send_in_loop bytes r c ≡ some c'
    → c'.socket.shut ≡ c.socket.shut
unfolding send_in_loop
send_in_loop-shut bytes r c c' e =
    ground (arith, send_direct-shut bytes r c c', append_output-shut false bytes c c')

handle_send-shut :
    (r : SendResult) (c c' : Connection)
    → handle_send r c ≡ some c'
    → (c'.socket.shut ≡ c.socket.shut) ⊎ (is_sending c'.channel ≡ false)
unfolding handle_send
handle_send-shut r c c' e = ground (arith, write-shut c.send_buffer r c)

handle_recv-shut :
    (consume : Bytes → Bytes) (r : RecvResult) (c c' : Connection)
    → handle_recv consume r c ≡ some c'
    → c'.socket.shut ≡ c.socket.shut
unfolding handle_recv
handle_recv-shut consume (received []) c c' e = ground arith
handle_recv-shut consume (received (b ∷ bs)) c c' e = ground arith
handle_recv-shut consume (recv_error x) c c' e = ground arith

run_first-shut :
    (ts : List Task) (r : SendResult) (c c' : Connection)
    → run_first ts r c ≡ some c'
    → (c'.socket.shut ≡ c.socket.shut) ⊎ (is_sending c'.channel ≡ false)
unfolding run_first
run_first-shut [] r c c' e = ground arith
run_first-shut (send_in_loop_task bytes ∷ ts) r c c' e =
    inl (send_in_loop-shut bytes r (record c { tasks = ts }) c' e)
run_first-shut (shutdown_in_loop_task ∷ ts) r c c' e = ground arith
run_first-shut (handle_close_task ∷ ts) r c c' e = ground arith
run_first-shut (write_complete_task ∷ ts) r c c' e = ground arith

step-shut :
    (o : Op) (c c' : Connection)
    → step o c ≡ some c'
    → (c'.socket.shut ≡ c.socket.shut) ⊎ (is_sending c'.channel ≡ false)
unfolding step
step-shut established c c' e = ground arith
step-shut destroyed c c' e = ground arith
step-shut force_closes c c' e = ground arith
step-shut (sends true bytes r) c c' e = inl (send_in_loop-shut bytes r c c' e)
step-shut (sends false bytes r) c c' e = ground arith
step-shut (shuts_down in_loop) c c' e = ground arith
step-shut (readable consume r) c c' e = inl (handle_recv-shut consume r c c' e)
step-shut (writable r) c c' e = handle_send-shut r c c' e
step-shut (next_task r) c c' e = run_first-shut c.tasks r c c' e

-- A step that shuts the write side, on a connection that stays up, does so with nothing left to
-- send: where write interest followed the send buffer before the step, the buffer is empty after it.
pub step_shuts_drained :
    (o : Op) (c c' : Connection)
    → IsAllowed o c
    → IsDraining c
    → step o c ≡ some c'
    → c.socket.shut ≡ false
    → c'.socket.shut ≡ true
    → is_disconnected c'.state ≡ false
    → c'.send_buffer ≡ []
step_shuts_drained o c c' a f e open_before shut_after up = elim (step-shut o c c' e) [
  | inl same ↦ cc
  | inr quiet ↦ empty c'.send_buffer (sym quiet ∙ step-IsDraining o c c' a e f up)
]
  where
    empty : (b : Bytes) → false ≡ not (is_empty b) → b ≡ []
    empty [] h = refl
    empty (x ∷ b) h = cc
