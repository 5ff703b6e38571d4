-- ===== src/Tcp/Connection/Draining.antt =====
-- Write interest and the send buffer of src/slite/TCPConnection.cc.
use serverlite.Base.{
  ℕ, Bool, true, false, not, ◌&&◌, some, List, [], ◌∷◌, ◌++◌, Bytes, drop, is_empty, if◌then◌else◌,
  ltb, ◌≡◌, refl, ap, subst, some_inj, arith, Bool-cases, Option-cases, inl, inr,
}
use serverlite.Reactor.Channel.{
  Channel, ChannelState, new, add, delete, Poller, is_sending, enable_send, disable_send,
  enable_recv, remove, remove_channel, update_channel,
}
use serverlite.Tcp.Connection.{
  Connection, connecting, SendResult, sent, send_error, RecvResult, received, recv_error, Task,
  send_in_loop_task, shutdown_in_loop_task, handle_close_task, write_complete_task, Op, established,
  destroyed, force_closes, sends, shuts_down, readable, writable, next_task, step, send_direct,
  write, push_task, is_disconnected, is_disconnecting, is_broken, taken, has_failed, send_in_loop,
  append_output, handle_send, finish_output, shutdown_in_loop, handle_close, connect_destroyed,
  connect_established, disconnect, handle_recv, run_first,
}

-- On a connection that is not down, the channel waits for the socket to take more exactly while
-- bytes wait to be sent.
abbrev pub IsDraining : Connection → Type 0
IsDraining c = is_disconnected c.state ≡ false → is_sending c.channel ≡ not (is_empty c.send_buffer)

update_events :
    (s : ChannelState) (c c' : Channel) (p p' : Poller)
    → c.state ≡ s
    → update_channel c p ≡ some (c', p')
    → c'.events ≡ c.events
unfolding update_channel
update_events new c c' p p' s e = ground arith
update_events add c c' p p' s e = ground arith
update_events delete c c' p p' s e = ground arith

enable_send_events :
    (c c' : Channel) (p p' : Poller) → enable_send c p ≡ some (c', p') → is_sending c' ≡ true
unfolding enable_send
enable_send_events c c' p p' e = ap (λ x. x.send_event) (update_events _ _ c' p p' refl e)

disable_send_events :
    (c c' : Channel) (p p' : Poller) → disable_send c p ≡ some (c', p') → is_sending c' ≡ false
unfolding disable_send
disable_send_events c c' p p' e = ap (λ x. x.send_event) (update_events _ _ c' p p' refl e)

enable_recv_events :
    (c c' : Channel) (p p' : Poller)
    → enable_recv c p ≡ some (c', p')
    → is_sending c' ≡ is_sending c
unfolding enable_recv
enable_recv_events c c' p p' e = ap (λ x. x.send_event) (update_events _ _ c' p p' refl e)

remove_events :
    (c c' : Channel) (p p' : Poller) → remove c p ≡ some (c', p') → is_sending c' ≡ is_sending c
unfolding remove remove_channel
remove_events c c' p p' e = ground arith

not_empty : (b : Bytes) (x : ℕ) (r : Bytes) → is_empty (b ++ x ∷ r) ≡ false
not_empty [] x r = refl
not_empty (y ∷ b) x r = refl

-- The relation itself, without the state.
abbrev Follows : Connection → Type 0
Follows c = is_sending c.channel ≡ not (is_empty c.send_buffer)

append_output-Follows :
    (broken : Bool) (rest : Bytes) (c c' : Connection)
    → append_output broken rest c ≡ some c'
    → Follows c
    → Follows c' × (c'.state ≡ c.state) × (c'.socket ≡ c.socket)
unfolding append_output
append_output-Follows true rest c c' e f = ground arith
append_output-Follows false [] c c' e f = ground arith
append_output-Follows false (x ∷ rest) c c' e f = ground (
  arith,
  not_empty c.send_buffer x rest,
  enable_send_events c.channel c'.channel c.poller c'.poller,
)

push_if-Follows :
    (b : Bool) (t : Task) (c : Connection) → Follows c → Follows (if b then push_task t c else c)
push_if-Follows true t c f = f
push_if-Follows false t c f = f

write-Follows :
    (bytes : Bytes) (r : SendResult) (c : Connection) → Follows c → Follows (write bytes r c)
write-Follows bytes (sent n) c f = f
write-Follows bytes (send_error e) c f = f

send_direct-Follows :
    (bytes : Bytes) (r : SendResult) (c c' : Connection)
    → send_direct bytes r c ≡ some c'
    → Follows c
    → Follows c'
unfolding send_direct
send_direct-Follows bytes r c c' e f =
    let c1 = write bytes r c in
    let done = not (has_failed r) && is_empty (drop (taken r) bytes) && c.has_write_complete in
    (append_output-Follows (is_broken r) (drop (taken r) bytes) _ c' e
      (push_if-Follows done write_complete_task c1 (write-Follows bytes r c f))).0

send_in_loop-IsDraining :
    (bytes : Bytes) (r : SendResult) (c c' : Connection)
    → send_in_loop bytes r c ≡ some c'
    → IsDraining c
    → IsDraining c'
unfolding send_in_loop
send_in_loop-IsDraining bytes r c c' e f = elim (Bool-cases (is_disconnected c.state)) [
  | inl down ↦ let same = rw down at e in ground arith
  | inr up ↦ elim (Bool-cases (not (is_sending c.channel) && is_empty c.send_buffer)) [
    | inl direct ↦ λ _. send_direct-Follows bytes r c c' (rw (up, direct) at e) (f up)
    | inr queued ↦ λ _. (append_output-Follows false bytes c c' (rw (up, queued) at e) (f up)).0
  ]
]

write-channel :
    (bytes : Bytes) (r : SendResult) (c : Connection) → (write bytes r c).channel ≡ c.channel
write-channel bytes (sent n) c = refl
write-channel bytes (send_error e) c = refl

finish_output-Follows :
    (c c' : Connection)
    → finish_output c ≡ some c'
    → is_sending c.channel ≡ true
    → Follows c' × (c'.state ≡ c.state)
unfolding finish_output
finish_output-Follows c c' e s = elim (Option-cases (disable_send c.channel c.poller)) [
  | inl failed ↦ let e' = rw failed at e in ground arith
  | inr (r, q) ↦
      let off = disable_send_events c.channel r.0 c.poller r.1 q in
      let e' = rw q at e in ground arith
]

shutdown_in_loop-Follows :
    (b : Bool) (c : Connection) → Follows c → Follows (if b then shutdown_in_loop c else c)
unfolding shutdown_in_loop
shutdown_in_loop-Follows true c f = ground arith
shutdown_in_loop-Follows false c f = f

handle_send-IsDraining :
    (r : SendResult) (c c' : Connection) → handle_send r c ≡ some c' → IsDraining c → IsDraining c'
unfolding handle_send
handle_send-IsDraining r c c' e f = elim (Bool-cases (is_sending c.channel && ltb 0 (taken r))) [
  | inr idle ↦ let e' = rw idle at e in ground arith
  | inl going ↦
      let c1 = write c.send_buffer r c in
      let d = record c1 { send_buffer = drop (taken r) c.send_buffer } in
      elim (Option-cases (finish_output d)) [
        | inl failed ↦ absurd (cc (rw (going, failed) at e))
        | inr (c2, q) ↦
            let on : is_sending (write c.send_buffer r c).channel ≡ true =
              rw (write-channel c.send_buffer r c) (ground arith) in
            let kept = finish_output-Follows d c2 q on in
            let c3 = if is_disconnecting c2.state then shutdown_in_loop c2 else c2 in
            let e' : some c3 ≡ some c' = rw (going, q) at e in
            λ _.
              subst Follows (some_inj c3 c' e')
                (shutdown_in_loop-Follows (is_disconnecting c2.state) c2 kept.0)
      ]
]

-- handleClose and the operations that leave the connection down.
handle_close_down : (c c' : Connection) → handle_close c ≡ some c' → is_disconnected c'.state ≡ true
unfolding handle_close
handle_close_down c c' e = ground arith

handle_recv-IsDraining :
    (consume : Bytes → Bytes) (r : RecvResult) (c c' : Connection)
    → handle_recv consume r c ≡ some c'
    → IsDraining c
    → IsDraining c'
unfolding handle_recv
handle_recv-IsDraining consume (received []) c c' e f = ground arith
handle_recv-IsDraining consume (received (b ∷ bs)) c c' e f = ground arith
handle_recv-IsDraining consume (recv_error x) c c' e f = ground arith

connect_established-IsDraining :
    (c c' : Connection)
    → c.state ≡ connecting
    → connect_established c ≡ some c'
    → IsDraining c
    → IsDraining c'
unfolding connect_established
connect_established-IsDraining c c' s e f = elim (Option-cases (enable_recv c.channel c.poller)) [
  | inl failed ↦ absurd (cc (rw failed at e))
  | inr (r, q) ↦
      let kept = enable_recv_events c.channel r.0 c.poller r.1 q in
      let e' = rw q at e in ground arith
]

connect_destroyed-IsDraining :
    (c c' : Connection) → connect_destroyed c ≡ some c' → IsDraining c → IsDraining c'
unfolding connect_destroyed
connect_destroyed-IsDraining c c' e f = elim (Option-cases (disconnect c)) [
  | inl failed ↦ absurd (cc (rw failed at e))
  | inr (d, q) ↦
      let down = disconnect-IsDraining c d q f in
      let e1 = rw q at e in
      elim (Option-cases (remove d.channel d.poller)) [
        | inl failed ↦ absurd (cc (rw failed at e1))
        | inr (r, w) ↦
            let kept = remove_events d.channel r.0 d.poller r.1 w in
            let e2 = rw w at e1 in ground arith
      ]
]
  where
    disconnect-IsDraining : (c d : Connection) → disconnect c ≡ some d → IsDraining c → IsDraining d
    disconnect-IsDraining c d e f = ground arith

run_first-IsDraining :
    (ts : List Task) (r : SendResult) (c c' : Connection)
    → run_first ts r c ≡ some c'
    → IsDraining c
    → IsDraining c'
unfolding run_first
run_first-IsDraining [] r c c' e f = ground arith
run_first-IsDraining (send_in_loop_task bytes ∷ ts) r c c' e f =
    send_in_loop-IsDraining bytes r (record c { tasks = ts }) c' e f
run_first-IsDraining (shutdown_in_loop_task ∷ ts) r c c' e f = ground arith
run_first-IsDraining (handle_close_task ∷ ts) r c c' e f = ground arith
run_first-IsDraining (write_complete_task ∷ ts) r c c' e f = ground arith

-- connectEstablished is run once, on a connection that is CONNECTING.
abbrev pub IsAllowed : Op → Connection → Type 0
IsAllowed established c = c.state ≡ connecting
IsAllowed _ c = Unit

-- Every step that passes its asserts keeps write interest in line with the send buffer, if
-- connectEstablished is run only on a connection that is CONNECTING: while the connection is not
-- down, EPOLLOUT is asked for exactly while bytes wait to be sent.
pub step-IsDraining :
    (o : Op) (c c' : Connection) → IsAllowed o c → step o c ≡ some c' → IsDraining c → IsDraining c'
unfolding step
step-IsDraining established c c' a e f = connect_established-IsDraining c c' a e f
step-IsDraining destroyed c c' a e f = connect_destroyed-IsDraining c c' e f
step-IsDraining force_closes c c' a e f = ground arith
step-IsDraining (sends true bytes r) c c' a e f = send_in_loop-IsDraining bytes r c c' e f
step-IsDraining (sends false bytes r) c c' a e f = ground arith
step-IsDraining (shuts_down in_loop) c c' a e f = ground arith
step-IsDraining (readable consume r) c c' a e f = handle_recv-IsDraining consume r c c' e f
step-IsDraining (writable r) c c' a e f = handle_send-IsDraining r c c' e f
step-IsDraining (next_task r) c c' a e f = run_first-IsDraining c.tasks r c c' e f
