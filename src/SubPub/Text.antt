-- ===== src/SubPub/Text.antt =====
-- The lines of examples/subpub.cc as a client writes them.
use serverlite.Base.{
  if◌then◌else◌, ℕ, zero, suc, ◌+◌, ◌≤◌, ◌<◌, ◌≡◌, ◌≢◌, refl, ap, ◌∙◌, arith, false, Option, some,
  none, [], ◌∷◌, ◌++◌, Bytes, length, take-append_exact, drop-append_past, length-append,
  length-drop, Option-cases, inl, inr,
}
use serverlite.Base.Text.{split_crlf, split_crlf_shorter, split_crlf-line, Lacks}
use serverlite.SubPub.{
  Hub, Next, goes_on, returns, is_end, strip, strip_front, strip_back, find_end, Taken, bad_length,
  get_message, on_data, on_taken, message_loop, on_server_message,
}

-- No blank, no end of a line.
abbrev pub IsPlain : Bytes → Type 0
IsPlain [] = Unit
IsPlain (b ∷ bs) = ((b ≢ 13) × (b ≢ 10) × (b ≢ 32)) × IsPlain bs

-- No character that ends a line.
abbrev pub IsLine : Bytes → Type 0
IsLine [] = Unit
IsLine (b ∷ bs) = ((b ≢ 13) × (b ≢ 10)) × IsLine bs

pub IsPlain-IsLine : (s : Bytes) → IsPlain s → IsLine s
IsPlain-IsLine [] p = tt
IsPlain-IsLine (b ∷ s) ((r, n, k), p) = ((r, n), IsPlain-IsLine s p)

pub IsLine-append : (a b : Bytes) → IsLine a → IsLine b → IsLine (a ++ b)
IsLine-append [] b p q = q
IsLine-append (x ∷ a) b p q = (p.0, IsLine-append a b p.1 q)

pub IsLine-Lacks : (s : Bytes) → IsLine s → Lacks 13 s
IsLine-Lacks [] p = tt
IsLine-Lacks (b ∷ s) p = (p.0.0, IsLine-Lacks s p.1)

find_end-line : (s rest : Bytes) → IsLine s → find_end (s ++ 13 ∷ 10 ∷ rest) ≡ some (length s)
unfolding find_end
find_end-line [] rest p = refl
find_end-line (b ∷ s) rest p =
    let other : is_end b ≡ false = ground arith in
    rw (other, find_end-line s rest p.1) (ap some (omega arith))

strip_front_plain : (s : Bytes) → IsPlain s → strip_front s ≡ s
strip_front_plain [] p = refl
strip_front_plain (b ∷ s) p = ground arith

strip_back_plain : (s : Bytes) → IsPlain s → strip_back s ≡ s
strip_back_plain [] p = refl
strip_back_plain (b ∷ []) p = ground arith
strip_back_plain (b ∷ d ∷ s) p = rw (strip_back_plain (d ∷ s) p.1)

pub strip_plain : (s : Bytes) → IsPlain s → strip s ≡ s
unfolding strip
strip_plain s p = rw (strip_front_plain s p) (strip_back_plain s p)

-- The first line of a buffer, of any length.
pub get_message_first :
    (s rest : Bytes)
    → IsLine s
    → get_message (s ++ 13 ∷ 10 ∷ rest)
      ≡ record { text = s; errcode = if bad_length s then 2 else 0; buffer = rest }
unfolding get_message
get_message_first s rest p = rw (
  find_end-line s rest p,
  take-append_exact (length s) s (13 ∷ 10 ∷ rest) refl,
  drop-append_past (length s + 2) 2 s (13 ∷ 10 ∷ rest) (omega arith),
)

pub get_message_line :
    (s rest : Bytes)
    → IsLine s
    → 5 ≤ length s
    → length s ≤ 100
    → get_message (s ++ 13 ∷ 10 ∷ rest) ≡ record { text = s; errcode = 0; buffer = rest }
get_message_line s rest p lo hi =
    let good : bad_length s ≡ false = ground arith in get_message_first s rest p ∙ rw good refl

get_message-shrinks : (b : Bytes) → 1 ≤ length b → length (get_message b).buffer < length b
unfolding get_message
get_message-shrinks b some_bytes = elim (Option-cases (find_end b)) [
  | inl e ↦ rw e some_bytes
  | inr (pos, e) ↦ rw e (omega (arith, length-drop (pos + 2) b))
]

split_crlf-some : (b : Bytes) (p : Bytes × Bytes) → split_crlf b ≡ some p → 1 ≤ length b
split_crlf-some b p e = let shorter = split_crlf_shorter b p.0 p.1 e in omega (arith, shorter)

-- Any two amounts of fuel above the buffer's length give the same result.
message_loop_fuel :
    (f g c : ℕ) (b : Bytes) (h : Hub)
    → length b < f
    → length b < g
    → message_loop f c b h ≡ message_loop g c b h
unfolding message_loop
message_loop_fuel zero g c b h p q = absurd (omega arith)
message_loop_fuel (suc f) zero c b h p q = absurd (omega arith)
message_loop_fuel (suc f) (suc g) c b h p q = elim (Option-cases (split_crlf b)) [
  | inl e ↦ rw (e, message_loop)
  | inr (line, e) ↦ elim (Option-cases (on_taken c (get_message b) h)) [
    | inl failed ↦ rw (e, failed, message_loop)
    | inr (returns h', taken) ↦ rw (e, taken, message_loop)
    | inr (goes_on h', taken) ↦
        let shorter = get_message-shrinks b (split_crlf-some b line e) in
        rw (e, taken, message_loop)
          (message_loop_fuel f g c (get_message b).buffer h' (omega arith) (omega arith))
  ]
]

abbrev pub then_on : ℕ → Bytes → Option Next → Option (Hub × Bytes)
then_on c rest none = none
then_on c rest (some (goes_on h)) = on_server_message c rest h
then_on c rest (some (returns h)) = some (h, rest)

-- One line in front of the buffer.
pub on_server_message-line :
    (c : ℕ) (s rest : Bytes) (h : Hub)
    → IsLine s
    → 5 ≤ length s
    → length s ≤ 100
    → on_server_message c (s ++ 13 ∷ 10 ∷ rest) h ≡ then_on c rest (on_data c s h)
unfolding on_server_message on_taken
on_server_message-line c s rest h p lo hi =
    let buffer = s ++ 13 ∷ 10 ∷ rest in
    let found = split_crlf-line s rest (IsLine-Lacks s p) in
    let taken = get_message_line s rest p lo hi in
    elim (Option-cases (on_data c s h)) [
      | inl failed ↦ rw (found, taken, failed, message_loop)
      | inr (returns h', e) ↦
          rw (found, taken, e, message_loop) (ap (λ (m : Taken). some (h', m.buffer)) taken)
      | inr (goes_on h', e) ↦
          rw (found, taken, e, message_loop)
            (ap (λ (m : Taken). message_loop (length buffer) c m.buffer h') taken
              ∙ message_loop_fuel (length buffer) (suc (length rest)) c rest h'
                  (omega (arith, length-append s (13 ∷ 10 ∷ rest))) (omega arith))
    ]
