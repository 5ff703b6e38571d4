-- ===== src/Logs/Order.antt =====
-- The order of the logs on their way through src/slite/AsyncLogger.cc.
use serverlite.Base.{
  ◌≤◌, ◌≡◌, refl, sym, ap, ◌∙◌, arith, true, false, List, [], ◌∷◌, ◌++◌, Bytes, length, take,
  concat, ltb, append_assoc, append-nil, Bool-cases, inl, inr, length-append,
}
use serverlite.Logs.{
  AsyncLogger, ended, started, append, room, round, dropped_message, stop, test, Step, appends,
  stops, tests, writes,
}

-- The backend keeps up: a round finds at most 25 buffers.
abbrev pub IsKept : {a b : AsyncLogger} → Step a b → Type 0
IsKept {a} (appends log) = Unit
IsKept {a} stops = Unit
IsKept {a} (tests e) = Unit
IsKept {a} (writes e) = length a.buffers ≤ 24

pub data Kept : AsyncLogger → Type 0 where
  here : Kept started
  then_step : {a b : AsyncLogger} → Kept a → (s : Step a b) → IsKept s → Kept b

concat-append : (xs ys : List Bytes) → concat (xs ++ ys) ≡ concat xs ++ concat ys
concat-append [] ys = refl
concat-append (x ∷ xs) ys = rw (concat-append xs ys) (sym (append_assoc x (concat xs) (concat ys)))

-- The bytes that were written, that wait in full buffers and that wait in the current one.
abbrev pub text : AsyncLogger → Bytes
text a = concat a.written ++ (concat a.buffers ++ a.buffer)

append-text :
    (log : Bytes) (a : AsyncLogger) → a.next_buffer ≡ [] → text (append log a) ≡ text a ++ log
unfolding append
append-text log a e = elim (Bool-cases (ltb (length log) (room a))) [
  | inl fits ↦ rw fits (simp append_assoc)
  | inr full ↦
      rw (full, e, concat-append a.buffers (a.buffer ∷ []), append-nil a.buffer) (simp append_assoc)
]

-- What every history without an overload keeps.
record Inv (a : AsyncLogger) : Type 0 where
  whole : text a ≡ concat a.logs
  spare : a.next_buffer ≡ []

concat-last : (logs : List Bytes) (log : Bytes) → concat (logs ++ log ∷ []) ≡ concat logs ++ log
concat-last logs log = concat-append logs (log ∷ []) ∙ ap (◌++◌ (concat logs)) (append-nil log)

round-text : (a : AsyncLogger) → length a.buffers ≤ 24 → text (round a) ≡ text a
unfolding round
round-text a le =
    let total = length-append a.buffers (a.buffer ∷ []) in
    let kept : ltb 25 (length (a.buffers ++ a.buffer ∷ [])) ≡ false = ground (arith, total) in
    rw
      (
        kept,
        concat-append a.written (a.buffers ++ a.buffer ∷ []),
        concat-append a.buffers (a.buffer ∷ []),
        append-nil a.buffer,
      )
      (append-nil _)

append-kept :
    (log : Bytes) (a : AsyncLogger)
    → ((append log a).next_buffer ≡ a.next_buffer) × ((append log a).logs ≡ a.logs ++ log ∷ [])
unfolding append
append-kept log a = ground arith

Step-Inv : {a b : AsyncLogger} (s : Step a b) → IsKept s → Inv a → Inv b
unfolding round
Step-Inv {a} (appends log) k v =
    let same = append-kept log a in
    record {
      whole =
          append-text log a v.spare
          ∙ ap (λ t. t ++ log) v.whole
          ∙ sym (concat-last a.logs log)
          ∙ ap concat (sym same.1);
      spare = same.0 ∙ v.spare;
    }
Step-Inv {a} stops k v = record { whole = v.whole; spare = v.spare }
Step-Inv {a} (tests e) k v = record { whole = v.whole; spare = v.spare }
Step-Inv {a} (writes e) k v = record { whole = round-text a k ∙ v.whole; spare = refl }

Kept-Inv : {a : AsyncLogger} → Kept a → Inv a
Kept-Inv here = record { whole = refl; spare = refl }
Kept-Inv (then_step r s k) = Step-Inv s k (Kept-Inv r)

-- However callers and the backend interleave, as long as no round finds more than 25 buffers: the bytes
-- written to the file, followed by those in the full buffers and in the current one, are those of all
-- logs, in the order of the calls of append.
pub Kept-text : {a : AsyncLogger} → Kept a → text a ≡ concat a.logs
Kept-text r = (Kept-Inv r).whole

-- A round that finds more than 25 buffers, the current one counted, writes a message and the first two
-- of them; all the others are gone.
pub round_drops :
    (a : AsyncLogger)
    → 25 ≤ length a.buffers
    → ((round a).written
        ≡ a.written
          ++ (dropped_message (a.buffers ++ a.buffer ∷ []) ∷ take 2 (a.buffers ++ a.buffer ∷ [])))
      × ((round a).buffers ≡ [])
      × ((round a).buffer ≡ [])
unfolding round
round_drops a many =
    let total = length-append a.buffers (a.buffer ∷ []) in
    let over : ltb 25 (length (a.buffers ++ a.buffer ∷ [])) ≡ true = ground (arith, total) in
    (rw over, refl, refl)

pub data Steps (a : AsyncLogger) : AsyncLogger → Type 0 where
  stays : Steps a a
  steps : {b c : AsyncLogger} → Steps a b → Step b c → Steps a c

Step-ended :
    {a b : AsyncLogger} → Step a b → a.phase ≡ ended → (b.phase ≡ ended) × (b.written ≡ a.written)
unfolding append
Step-ended {a} (appends log) e = ground arith
Step-ended {a} stops e = (e, refl)
Step-ended {a} (tests t) e = absurd (cc (sym t ∙ e))
Step-ended {a} (writes w) e = absurd (cc (sym w ∙ e))

Steps-ended :
    {a b : AsyncLogger} → Steps a b → a.phase ≡ ended → (b.phase ≡ ended) × (b.written ≡ a.written)
Steps-ended stays e = (e, refl)
Steps-ended (steps r s) e =
    let before = Steps-ended r e in let now = Step-ended s before.0 in (now.0, now.1 ∙ before.1)

-- stop() while the backend is not in its wait: at the next test the backend ends without another
-- round, so whatever happens afterwards, what was appended since the last round is never written.
stop_loses :
    (a : AsyncLogger) {b : AsyncLogger}
    → Steps (test (stop a)) b
    → (b.phase ≡ ended) × (b.written ≡ a.written)
stop_loses a r = Steps-ended r refl
