-- ===== src/Servers/Chargen.antt =====
-- ChargenServer of src/examples/simple_server.cc: its message, and what it sends on a connection as
-- its writes complete. printThroughput, which reads and resets the counter, is left out.
use serverlite.Base.{
  ℕ, zero, suc, ◌+◌, ◌*◌, ◌≡◌, refl, sym, ap, ◌∙◌, arith, true, false, Option, some, none, List, [],
  ◌∷◌, ◌++◌, Bytes, length, take, drop, if◌then◌else◌, append-nil, append_assoc,
}
use serverlite.Base.Options.{◌>>=◌}
use serverlite.Tcp.Connection.{
  Connection, SendResult, Task, write_complete_task, is_connected, is_broken, write_complete_call,
  handle_send, send, call,
}
use serverlite.Tcp.Connection.Output.{stream}
use serverlite.Tcp.Connection.Live.{IsLive, send-Sends, handle_send-Sends}
use native.Mathlib.Nat.{add-mul}

-- createMessage: the printable characters from `i` on, `n` of them.
abbrev pub characters : ℕ → ℕ → Bytes
characters i zero = []
characters i (suc n) = i ∷ characters (i + 1) n

-- Lines of 72 characters of `line`, from `i` on, `n` of them.
abbrev pub lines_of : Bytes → ℕ → ℕ → Bytes
lines_of line i zero = []
lines_of line i (suc n) = take 72 (drop i line) ++ (10 ∷ lines_of line (i + 1) n)

unfoldable pub create_message : Bytes
create_message = let line = characters 33 94 in lines_of (line ++ line) 0 94

-- messageCount_, which all connections share, and one of them.
pub record Chargen : Type 0 where
  pub conn : Connection
  pub message_count : ℕ

abbrev with_conn : Chargen → Option Connection → Option Chargen
with_conn s none = none
with_conn s (some c) = some (record s { conn = c })

-- onConnection, when the connection is up or down.
pub on_connection : SendResult → Chargen → Option Chargen
on_connection r s =
    if is_connected s.conn.state then with_conn s (send true create_message r s.conn) else some s

-- onWriteComplete.
pub on_write_complete : SendResult → Chargen → Option Chargen
on_write_complete r s =
    let t = record s { message_count = s.message_count + length create_message } in
    if is_connected s.conn.state then with_conn t (send true create_message r s.conn) else some t

-- The loop comes to the first task of the connection, if that is the write complete callback.
pub complete : List Task → SendResult → Chargen → Option Chargen
unfolding on_write_complete
complete (write_complete_task ∷ ts) r s =
    on_write_complete r
      (record s { conn = call write_complete_call (record s.conn { tasks = ts }) })
complete _ r s = some s

pub data Event : Type 0 where
  writable completes : SendResult → Event

pub run : List Event → Chargen → Option Chargen
unfolding complete
run [] s = some s
run (writable r ∷ es) s = with_conn s (handle_send r s.conn) >>= run es
run (completes r ∷ es) s = complete s.conn.tasks r s >>= run es

abbrev pub AllSound : List Event → Type 0
AllSound [] = Unit
AllSound (writable r ∷ es) = AllSound es
AllSound (completes r ∷ es) = (is_broken r ≡ false) × AllSound es

abbrev pub repeat : ℕ → Bytes → Bytes
repeat zero b = []
repeat (suc n) b = b ++ repeat n b

-- The server has gone on by n messages.
abbrev pub GoesBy : ℕ → Chargen → Option Chargen → Type 0
GoesBy n s o =
    (s' : Chargen) × (o ≡ some s')
    × IsLive s'.conn
    × (s'.message_count ≡ s.message_count + n * length create_message)
    × (stream s'.conn ≡ stream s.conn ++ repeat n create_message)

stays : (s : Chargen) → IsLive s.conn → GoesBy 0 s (some s)
stays s live = (s, refl, live, omega arith, sym (append-nil (stream s.conn)))

complete-GoesBy :
    (ts : List Task) (r : SendResult) (s : Chargen)
    → IsLive s.conn
    → is_broken r ≡ false
    → (n : ℕ) × GoesBy n s (complete ts r s)
unfolding complete on_write_complete
complete-GoesBy (write_complete_task ∷ ts) r s live sound =
    let c0 = call write_complete_call (record s.conn { tasks = ts }) in
    let l0 : IsLive c0 = record {
      up = live.up;
      registered = live.registered;
      reads = live.reads;
    } in
    let up = ap is_connected live.up in
    let (c', e, l, b, st) = send-Sends create_message r c0 l0 sound in
    (
      1,
      (
        record { conn = c'; message_count = s.message_count + length create_message },
        rw (up, e) refl,
        l,
        omega arith,
        st ∙ ap (◌++◌ (stream s.conn)) (sym (append-nil create_message)),
      ),
    )
complete-GoesBy _ r s live sound = (0, stays s live)

repeat-append : (n k : ℕ) (b : Bytes) → repeat n b ++ repeat k b ≡ repeat (n + k) b
repeat-append zero k b = ap (λ i. repeat i b) {x = k} {y = 0 + k} (omega arith)
repeat-append (suc n) k b =
    append_assoc b (repeat n b) (repeat k b)
    ∙ ap (◌++◌ b) (repeat-append n k b)
    ∙ ap (λ i. repeat i b) {x = suc (n + k)} {y = suc n + k} (omega arith)

-- Two stretches one after the other.
GoesBy-run :
    (es : List Event) (n : ℕ) (s : Chargen) (o : Option Chargen)
    → GoesBy n s o
    → ((t : Chargen) → IsLive t.conn → (k : ℕ) × GoesBy k t (run es t))
    → (k : ℕ) × GoesBy k s (o >>= run es)
GoesBy-run es n s o (t, e, l, c, st) rest =
    let (k, (u, e', l', c', st')) = rest t l in
    (
      n + k,
      (
        u,
        ap (λ x. x >>= run es) e ∙ e',
        l',
        c' ∙ omega (arith, c, add-mul n k (length create_message)),
        st'
            ∙ ap (λ x. x ++ repeat k create_message) st
            ∙ append_assoc (stream s.conn) (repeat n create_message) (repeat k create_message)
            ∙ ap (◌++◌ (stream s.conn)) (repeat-append n k create_message),
      ),
    )

writable-GoesBy :
    (r : SendResult) (s : Chargen) → IsLive s.conn → GoesBy 0 s (with_conn s (handle_send r s.conn))
writable-GoesBy r s live =
    let (c, e, l, b, st) = handle_send-Sends r s.conn live in
    (record s { conn = c }, rw e refl, l, omega arith, st)

-- A connection of the chargen server that is up, for any answers of the kernel but a broken
-- connection: no assert fails, the connection stays up, and there is a number of messages that both
-- messageCount_ has grown by, in bytes, and what is sent and waits has grown by, each of them the
-- whole message.
pub run-GoesBy :
    (es : List Event) (s : Chargen) → AllSound es → IsLive s.conn → (n : ℕ) × GoesBy n s (run es s)
unfolding run
run-GoesBy [] s sound live = (0, stays s live)
run-GoesBy (writable r ∷ es) s sound live =
    GoesBy-run es 0 s _ (writable-GoesBy r s live) (λ t l. run-GoesBy es t sound l)
run-GoesBy (completes r ∷ es) s sound live =
    let (n, g) = complete-GoesBy s.conn.tasks r s live sound.0 in
    GoesBy-run es n s _ g (λ t l. run-GoesBy es t sound.1 l)
