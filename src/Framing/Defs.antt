-- ===== src/Framing/Defs.antt =====
-- One turn of a decoding loop, and the loop on fuel.
use serverlite.Base.{ℕ, zero, suc, ◌<◌, ◌≡◌, List, [], ◌∷◌, ◌++◌, Bytes, length}

-- `wait`: the loop ends and nothing happens. `fail`: an error is reported and the loop ends with
-- the buffer as it is. `next`: callbacks run, the buffer is now the second argument.
pub data Turn (E : Type 0) : Type 0 where
  wait : Turn E
  fail : E → Turn E
  next : List E → Bytes → Turn E

-- The events reported, in order, and the bytes left in the buffer.
unfoldable pub run : {E : Type 0} → (Bytes → Turn E) → ℕ → Bytes → List E × Bytes
run turn zero buf = ([], buf)
run turn (suc f) buf = elim (turn buf) [
  | wait ↦ ([], buf)
  | fail e ↦ (e ∷ [], buf)
  | next es r ↦ let (es', r') = run turn f r in (es ++ es', r')
]

-- What makes a decoder indifferent to how the stream is cut into reads.
pub record IsIncremental {E : Type 0} (turn : Bytes → Turn E) : Type 0 where
  pub shrinks : (b : Bytes) (es : List E) (r : Bytes) → turn b ≡ next es r → length r < length b
  pub stable :
      (b c : Bytes) (es : List E) (r : Bytes)
      → turn b ≡ next es r
      → turn (b ++ c) ≡ next es (r ++ c)

-- The loop with the fuel that always suffices.
unfoldable pub decode : {E : Type 0} → (Bytes → Turn E) → Bytes → List E × Bytes
unfolding run
decode turn buf = run turn (suc (length buf)) buf
