-- ===== src/Base/Stoi.antt =====
-- std::stoi, as the examples use it on the numbers of a protocol.
use serverlite.Base.Tests.{◌==◌, if◌then◌else◌, ltb, leb, lt→ltb}
use serverlite.Base.Lists.{Bytes}
use serverlite.Base.Options.{◌>>=◌}
use serverlite.Base.Words.{ℤ, pos, negsuc}
use serverlite.Base.Digits.{
  to_string, read_digits, read_digits-to_string, AllDigits, to_string_some, to_string-AllDigits,
}
use Prim.Native.Nat.{ℕ, zero, suc, ◌+◌, ◌-◌, ◌*◌, ◌^◌, ◌<◌}
use mathlib.Core.Path.{◌≡◌, refl, ap, ◌∙◌}
use mathlib.Core.Logic.{◌≢◌}
use mathlib.Core.Bool.{Bool, true, false, ◌&&◌, ◌||◌}
use mathlib.Core.Option.{Option, none, some}
use mathlib.Core.List.{[], ◌∷◌}
use native.Mathlib.Omega.{arith}

-- std::stoi: white space, a sign, and at least one digit; what follows the digits is not read.
-- none: it throws invalid_argument or out_of_range.
abbrev is_space : ℕ → Bool
is_space b = b == 32 || (leb 9 b && leb b 13)

abbrev is_digit : ℕ → Bool
is_digit b = leb 48 b && leb b 57

abbrev skip_space : Bytes → Bytes
skip_space [] = []
skip_space (b ∷ bs) = let rest = skip_space bs in if is_space b then rest else b ∷ bs

abbrev scan_digits : ℕ → Bytes → ℕ
scan_digits acc [] = acc
scan_digits acc (b ∷ bs) =
    let rest = scan_digits (acc * 10 + (b - 48)) bs in if is_digit b then rest else acc

abbrev magnitude : Bytes → Option ℕ
magnitude [] = none
magnitude (b ∷ bs) = if is_digit b then some (scan_digits 0 (b ∷ bs)) else none

abbrev negative : ℕ → ℤ
negative zero = pos 0
negative (suc n) = negsuc n

abbrev below_zero : ℕ → Option ℤ
below_zero n = if leb n (2 ^ 31) then some (negative n) else none

abbrev from_zero : ℕ → Option ℤ
from_zero n = if ltb n (2 ^ 31) then some (pos n) else none

abbrev signed : Bytes → Option ℤ
signed [] = none
signed (b ∷ bs) =
    if b == 45
    then magnitude bs >>= below_zero
    else if b == 43
    then magnitude bs >>= from_zero
    else magnitude (b ∷ bs) >>= from_zero

unfoldable pub stoi : Bytes → Option ℤ
stoi s = signed (skip_space s)

scan_digits-read : (acc : ℕ) (s : Bytes) → AllDigits s → scan_digits acc s ≡ read_digits acc s
scan_digits-read acc [] h = refl
scan_digits-read acc (b ∷ s) h =
    let digit : is_digit b ≡ true = ground arith in
    rw digit (scan_digits-read (acc * 10 + (b - 48)) s h.1)

stoi-digits :
    (s : Bytes)
    → s ≢ []
    → AllDigits s
    → read_digits 0 s < 2 ^ 31
    → stoi s ≡ some (pos (read_digits 0 s))
unfolding stoi
stoi-digits [] ne h small = absurd (ne refl)
stoi-digits (b ∷ s) ne h small =
    let digit : is_digit b ≡ true = ground arith in
    let space : is_space b ≡ false = ground arith in
    let minus : (b == 45) ≡ false = ground arith in
    let plus : (b == 43) ≡ false = ground arith in
    let scanned = scan_digits-read 0 (b ∷ s) h in
    let bound = lt→ltb _ _ small in
    rw (space, minus, plus, digit) (rw (rw digit at scanned) (rw bound))

pub stoi-to_string : (n : ℕ) → n < 2 ^ 31 → stoi (to_string n) ≡ some (pos n)
stoi-to_string n small =
    let value = read_digits-to_string n in
    stoi-digits (to_string n) (to_string_some n) (to_string-AllDigits n) (rw value small)
    ∙ ap (λ k. some (pos k)) value
