-- ===== src/Base/Text.antt =====
-- What the program uses of the standard library on text: std::search for the end of a line, and
-- substr up to a character.
use serverlite.Base.Tests.{◌==◌, if◌then◌else◌, ==_refl, ==_ne, Bool-cases, Option-cases, some_inj}
use serverlite.Base.Lists.{Bytes, length, drop}
use serverlite.Base.Options.{◌>>=◌}
use Prim.Native.Nat.{ℕ, ◌+◌, ◌≤◌}
use mathlib.Core.Path.{◌≡◌, refl, ap}
use mathlib.Core.Logic.{◌≢◌, inl, inr}
use mathlib.Core.Bool.{Bool, false, ◌&&◌}
use mathlib.Core.Option.{Option, none, some}
use mathlib.Core.List.{[], ◌∷◌, ◌++◌}
use native.Mathlib.Omega.{arith}

-- std::search for "\r\n": what stands before it, and behind it.
abbrev pub begins_lf : Bytes → Bool
begins_lf [] = false
begins_lf (b ∷ bs) = b == 10

unfoldable pub split_crlf : Bytes → Option (Bytes × Bytes)
split_crlf [] = none
split_crlf (b ∷ bs) =
    let later = split_crlf bs in
    if b == 13 && begins_lf bs then some ([], drop 1 bs) else (later >>= λ r. some (b ∷ r.0, r.1))

-- substr(0, find_first_of(c)), the whole string where there is no such character.
unfoldable pub before : ℕ → Bytes → Bytes
before c [] = []
before c (b ∷ bs) = let rest = before c bs in if b == c then [] else b ∷ rest

-- The character does not occur.
abbrev pub Lacks : ℕ → Bytes → Type 0
Lacks c [] = Unit
Lacks c (b ∷ bs) = (b ≢ c) × Lacks c bs

pub Lacks-append : (c : ℕ) (a b : Bytes) → Lacks c a → Lacks c b → Lacks c (a ++ b)
Lacks-append c [] b h k = k
Lacks-append c (x ∷ a) b h k = (h.0, Lacks-append c a b h.1 k)

pub split_crlf-line :
    (line rest : Bytes) → Lacks 13 line → split_crlf (line ++ 13 ∷ 10 ∷ rest) ≡ some (line, rest)
unfolding split_crlf
split_crlf-line [] rest h = refl
split_crlf-line (b ∷ line) rest h = rw (==_ne b 13 h.0, split_crlf-line line rest h.1)

pub before-found : (c : ℕ) (s t : Bytes) → Lacks c s → before c (s ++ c ∷ t) ≡ s
unfolding before
before-found c [] t h = rw (==_refl c)
before-found c (b ∷ s) t h = rw (==_ne b c h.0, before-found c s t h.1)

pub split_crlf_shorter :
    (b line rest : Bytes) → split_crlf b ≡ some (line, rest) → length rest + 2 ≤ length b
unfolding split_crlf
split_crlf_shorter [] line rest e = cc
split_crlf_shorter (x ∷ []) line rest e = ground arith
split_crlf_shorter (x ∷ y ∷ b) line rest e = elim (Bool-cases (x == 13 && y == 10)) [
  | inl found ↦
      let behind = ap (λ r. r.1) (some_inj ([], b) (line, rest) (rw found at e)) in
      let size = ap length behind in omega arith
  | inr later ↦ elim (Option-cases (split_crlf (y ∷ b))) [
    | inl failed ↦ absurd (cc (rw (later, failed) at e))
    | inr (r, q) ↦
        let shorter = split_crlf_shorter (y ∷ b) r.0 r.1 q in
        let size =
          ap (λ p. length p.1) (some_inj (x ∷ r.0, r.1) (line, rest) (rw (later, q) at e)) in
        omega arith
  ]
]

-- A line that was found stays found when more bytes come.
pub split_crlf-append :
    (a c line rest : Bytes)
    → split_crlf a ≡ some (line, rest)
    → split_crlf (a ++ c) ≡ some (line, rest ++ c)
unfolding split_crlf
split_crlf-append [] c line rest e = absurd (cc e)
split_crlf-append (b ∷ []) c line rest e = ground arith
split_crlf-append (b ∷ d ∷ a) c line rest e = elim (Bool-cases (b == 13 && d == 10)) [
  | inl found ↦
      let p = some_inj ([], a) (line, rest) (rw found at e) in
      rw found (ap (λ (q : Bytes × Bytes). some (q.0, q.1 ++ c)) p)
  | inr later ↦ elim (Option-cases (split_crlf (d ∷ a))) [
    | inl failed ↦ absurd (cc (rw (later, failed) at e))
    | inr (r, q) ↦
        let both = some_inj (b ∷ r.0, r.1) (line, rest) (rw (later, q) at e) in
        rw (later, split_crlf-append (d ∷ a) c r.0 r.1 q)
          (ap (λ (q : Bytes × Bytes). some (q.0, q.1 ++ c)) both)
  ]
]
