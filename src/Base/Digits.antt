-- ===== src/Base/Digits.antt =====
-- Decimal numerals, as std::to_string writes them.
use serverlite.Base.Tests.{if◌then◌else◌, ltb, Bool-cases}
use serverlite.Base.Lists.{Bytes}
use Prim.Native.Nat.{ℕ, zero, suc, ◌+◌, ◌-◌, ◌*◌, ◌/◌, ◌%◌, ◌≤◌, ◌<◌}
use mathlib.Core.Path.{◌≡◌, subst, refl, sym, ap, ◌∙◌}
use mathlib.Core.Logic.{◌≢◌, inl, inr}
use mathlib.Core.List.{[], ◌∷◌, ◌++◌}
use native.Mathlib.Omega.{arith}

-- On fuel, which a number of at least the value's size is enough for.
digits : ℕ → ℕ → Bytes
digits zero n = []
digits (suc fuel) n =
    let rest = digits fuel (n / 10) in
    if ltb n 10 then (48 + n) ∷ [] else rest ++ (48 + n % 10) ∷ []

unfoldable pub to_string : ℕ → Bytes
unfolding digits
to_string n = digits (n + 1) n

-- The number that a numeral stands for, from the value `acc` of what is read.
abbrev pub read_digits : ℕ → Bytes → ℕ
read_digits acc [] = acc
read_digits acc (b ∷ bs) = read_digits (acc * 10 + (b - 48)) bs

read_digits-append :
    (acc : ℕ) (a b : Bytes) → read_digits acc (a ++ b) ≡ read_digits (read_digits acc a) b
read_digits-append acc [] b = refl
read_digits-append acc (x ∷ a) b = read_digits-append (acc * 10 + (x - 48)) a b

digits-value : (fuel n : ℕ) → n < fuel → read_digits 0 (digits fuel n) ≡ n
unfolding digits
digits-value zero n h = omega arith
digits-value (suc fuel) n h = elim (Bool-cases (ltb n 10)) [
  | inl small ↦ rw small (omega arith)
  | inr large ↦
      let below : 10 ≤ n = ground arith in
      rw
        (
          large,
          read_digits-append 0 (digits fuel (n / 10)) ((48 + n % 10) ∷ []),
          digits-value fuel (n / 10) (omega arith),
        )
        (omega arith)
]

pub read_digits-to_string : (n : ℕ) → read_digits 0 (to_string n) ≡ n
unfolding to_string
read_digits-to_string n = digits-value (n + 1) n (omega arith)

pub to_string_injective : (m n : ℕ) → to_string m ≡ to_string n → m ≡ n
to_string_injective m n e =
    sym (read_digits-to_string m) ∙ ap (read_digits 0) e ∙ read_digits-to_string n

-- The characters of a numeral.
abbrev pub AllDigits : Bytes → Type 0
AllDigits [] = Unit
AllDigits (b ∷ bs) = ((48 ≤ b) × (b ≤ 57)) × AllDigits bs

AllDigits-append : (a b : Bytes) → AllDigits a → AllDigits b → AllDigits (a ++ b)
AllDigits-append [] b h k = k
AllDigits-append (x ∷ a) b h k = (h.0, AllDigits-append a b h.1 k)

digits-AllDigits : (fuel n : ℕ) → AllDigits (digits fuel n)
unfolding digits
digits-AllDigits zero n = tt
digits-AllDigits (suc fuel) n = elim (Bool-cases (ltb n 10)) [
  | inl small ↦ rw small (((omega arith, ground arith), tt))
  | inr large ↦ rw large (
      AllDigits-append (digits fuel (n / 10)) ((48 + n % 10) ∷ []) (digits-AllDigits fuel (n / 10))
        ((omega arith, omega arith), tt))
]

append_some : (a : Bytes) (x : ℕ) → (a ++ x ∷ []) ≢ []
append_some [] x e = cc
append_some (y ∷ a) x e = cc

digits_some : (fuel n : ℕ) → digits (suc fuel) n ≢ []
unfolding digits
digits_some fuel n = elim (Bool-cases (ltb n 10)) [
  | inl small ↦ rw small (λ e. cc)
  | inr large ↦ rw large (append_some (digits fuel (n / 10)) (48 + n % 10))
]

pub to_string_some : (n : ℕ) → to_string n ≢ []
unfolding to_string
to_string_some n =
    let e : suc n ≡ n + 1 = omega arith in subst (λ k. digits k n ≢ []) e (digits_some n n)

pub to_string-AllDigits : (n : ℕ) → AllDigits (to_string n)
unfolding to_string
to_string-AllDigits n = digits-AllDigits (n + 1) n
