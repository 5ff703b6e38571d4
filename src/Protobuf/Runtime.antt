-- ===== src/Protobuf/Runtime.antt =====
-- What the codecs use of libprotobuf and zlib: a parameter of the model.
use serverlite.Base.{ℕ, Bytes, Option, some, Bool, true, ◌≡◌, ◌%◌, ◌^◌}

pub record Runtime : Type 1 where
  pub Message : Type 0
  -- The prototype that a descriptor gives, on which New() is called.
  pub Prototype : Type 0
  -- adler32(1, buf, len) on the bytes of `buf`.
  pub adler32 : Bytes → ℕ
  -- GetTypeName.
  pub type_name : Message → Bytes
  -- The bytes that SerializeWithCachedSizesToArray writes; ByteSizeLong is their number.
  pub serialize : Message → Bytes
  -- FindMessageTypeByName, then GetPrototype.
  pub find_prototype : Bytes → Option Prototype
  -- New(), then ParseFromArray: the object as it is left, and whether the parse succeeded.
  pub parse_from_array : Prototype → Bytes → Message × Bool

-- The documented behaviour for the messages of linked-in types: the type is found by its name, and
-- what a message serializes to parses back to it.
pub record Serves (rt : Runtime) (m : rt.Message) : Type 0 where
  pub prototype : rt.Prototype
  pub found : rt.find_prototype (rt.type_name m) ≡ some prototype
  pub parses : rt.parse_from_array prototype (rt.serialize m) ≡ (m, true)

-- static_cast<int32_t>(adler32(...)), as a bit pattern.
abbrev pub checksum : Runtime → Bytes → ℕ
checksum rt b = rt.adler32 b % 2 ^ 32
