-- ===== src/Base/Words.antt =====
-- Machine integers: 32-bit words in network order, and int32_t as the integer that a bit pattern
-- stands for.
use serverlite.Base.Lists.{length, Bytes}
use serverlite.Base.Tests.{ltb, if◌then◌else◌}
use Prim.Native.Nat.{ℕ, ◌+◌, ◌-◌, ◌*◌, ◌/◌, ◌%◌, ◌^◌, ◌≤◌, ◌<◌}
use mathlib.Core.Path.{◌≡◌, refl}
use mathlib.Core.Bool.{Bool, true, false}
use mathlib.Core.List.{[], ◌∷◌, ◌++◌}
use native.Mathlib.Omega.{arith}

-- `negsuc n` is -(n + 1).
pub data ℤ : Type 0 where
  pos : ℕ → ℤ
  negsuc : ℕ → ℤ

-- static_cast<int32_t> of the bit pattern `w`, below 2 ^ 32.
abbrev pub int32 : ℕ → ℤ
int32 w = if ltb w (2 ^ 31) then pos w else negsuc (2 ^ 32 - w - 1)

-- z > n and z < n, for a constant n of the program that is not negative.
abbrev pub int_gt : ℤ → ℕ → Bool
int_gt (pos k) n = ltb n k
int_gt (negsuc k) n = false

abbrev pub int_lt : ℤ → ℕ → Bool
int_lt (pos k) n = ltb k n
int_lt (negsuc k) n = true

-- The value, where it is not negative.
abbrev pub pos_part : ℤ → ℕ
pos_part (pos n) = n
pos_part (negsuc n) = 0

-- The four bytes of htonl(w).
unfoldable pub be32 : ℕ → Bytes
be32 w = (w / 2 ^ 24 % 256) ∷ (w / 2 ^ 16 % 256) ∷ (w / 2 ^ 8 % 256) ∷ (w % 256) ∷ []

-- ntohl of the first four bytes; a read past the end is none of the program's, and gives 0.
unfoldable pub read_be32 : Bytes → ℕ
read_be32 (a ∷ b ∷ c ∷ d ∷ _) = a * 2 ^ 24 + b * 2 ^ 16 + c * 2 ^ 8 + d
read_be32 _ = 0

pub length-be32 : (w : ℕ) → length (be32 w) ≡ 4
unfolding be32
length-be32 w = refl

pub read_be32-be32 : (w : ℕ) (rest : Bytes) → w < 2 ^ 32 → read_be32 (be32 w ++ rest) ≡ w
unfolding be32 read_be32
read_be32-be32 w rest h = omega arith

pub read_be32-append : (xs ys : Bytes) → 4 ≤ length xs → read_be32 (xs ++ ys) ≡ read_be32 xs
unfolding read_be32
read_be32-append (a ∷ b ∷ c ∷ d ∷ r) ys h = refl
read_be32-append _ ys h = absurd (omega arith)

pub int32_pos : (w : ℕ) → w < 2 ^ 31 → int32 w ≡ pos w
int32_pos w h = ground arith
