-- ===== src/Protobuf/Toy.antt =====
-- A small runtime to run the codecs on. A message is the name of its type and the payload; every
-- named type is linked in, and a payload that begins with 255 does not parse.
use serverlite.Base.{ℕ, ◌+◌, ◌*◌, ◌%◌, Bytes, [], ◌∷◌, Option, some, none, Bool, true, not, ◌==◌}
use serverlite.Protobuf.Runtime.{Runtime}

-- The two sums of Adler-32, from `a` and `b` on.
abbrev adler_sums : Bytes → ℕ → ℕ → ℕ
adler_sums [] a b = b * 65536 + a
adler_sums (x ∷ xs) a b = adler_sums xs ((a + x) % 65521) ((b + (a + x)) % 65521)

abbrev named_type : Bytes → Option Bytes
named_type [] = none
named_type (x ∷ xs) = some (x ∷ xs)

abbrev well_formed : Bytes → Bool
well_formed [] = true
well_formed (x ∷ xs) = not (x == 255)

abbrev pub toy : Runtime
toy = record {
  Message = Bytes × Bytes;
  Prototype = Bytes;
  adler32 = λ b. adler_sums b 1 0;
  type_name = λ m. m.0;
  serialize = λ m. m.1;
  find_prototype = named_type;
  parse_from_array = λ p b. ((p, b), well_formed b);
}
