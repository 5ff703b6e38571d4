-- ===== src/Protobuf/Codec.antt =====
-- src/slite/protobuf/ProtobufCodec.h and ProtobufCodec.cc. `int` arithmetic on lengths that passed
-- the range check stays below 2 ^ 31, so it is done on ℕ. The callbacks are the events of a run.
pub mod Stream
pub mod Failing
pub mod RoundTrip
pub mod Tests
use serverlite.Base.{
  ℕ, ◌+◌, ◌-◌, ◌*◌, Bytes, length, take, drop, List, [], ◌∷◌, ◌++◌, Option, some, none, Bool, true,
  false, ◌||◌, ◌&&◌, not, ltb, leb, ◌==◌, if◌then◌else◌,
}
use serverlite.Base.Words.{be32, read_be32, int32, int_gt, int_lt, pos_part, ℤ}
use serverlite.Framing.{Turn, wait, fail, next, decode}
use serverlite.Protobuf.Runtime.{Runtime, checksum}

pub data ErrorCode : Type 0 where
  no_error invalid_length check_sum_error invalid_name_len unknown_message_type parse_error :
      ErrorCode

abbrev pub header_len : ℕ
header_len = 4

abbrev pub min_message_len : ℕ
min_message_len = 2 * header_len + 2

abbrev pub max_message_len : ℕ
max_message_len = 64 * 1024 * 1024

module _ (rt : Runtime) where
  open rt use {Message, Prototype, type_name, serialize, find_prototype, parse_from_array}

  -- messageCallback_, and errorCallback_ with the buffer that it is handed.
  pub data Event : Type 0 where
    message : Message → Event
    error : ErrorCode → Bytes → Event

  -- What parse returns: the message object, null if none was made, and *error.
  pub record Parsed : Type 0 where
    pub object : Option Message
    pub code : ErrorCode

  -- The buffer up to the checksum: nameLen, the name with its final NUL, the payload.
  pub frame_body : Message → Bytes
  frame_body m =
      let name_len = length (type_name m) + 1 in
      be32 name_len ++ ((type_name m ++ 0 ∷ []) ++ serialize m)

  unfoldable pub fill_empty_buffer : Message → Bytes
  unfolding frame_body
  fill_empty_buffer m =
      let body = frame_body m in
      let buf = body ++ be32 (checksum rt body) in be32 (length buf) ++ buf

  abbrev parse_payload : Message × Bool → Parsed
  parse_payload (m, true) = record { object = some m; code = no_error }
  parse_payload (m, false) = record { object = some m; code = parse_error }

  abbrev parse_named : Option Prototype → Bytes → Parsed
  parse_named none payload = record { object = none; code = unknown_message_type }
  parse_named (some p) payload = parse_payload (parse_from_array p payload)

  -- From `int32_t nameLen = asInt32(buf)` on.
  pub parse_name : ℤ → Bytes → ℕ → Parsed
  parse_name name_len buf len =
      let n = pos_part name_len in
      if not (int_lt name_len 2) && not (int_gt name_len (len - 2 * header_len))
      then parse_named (find_prototype (take (n - 1) (drop header_len buf)))
          (take (len - n - 2 * header_len) (drop (header_len + n) buf))
      else record { object = none; code = invalid_name_len }

  -- `buf` is the memory from the pointer on, of which the message is the first `len` bytes.
  unfoldable pub parse : Bytes → ℕ → Parsed
  unfolding parse_name
  parse buf len =
      if checksum rt (take (len - header_len) buf) == read_be32 (drop (len - header_len) buf)
      then parse_name (int32 (read_be32 buf)) buf len
      else record { object = none; code = check_sum_error }

  -- The branch on the result of parse: errorCode == kNoError && message.
  abbrev handle : Option Message → ErrorCode → Bytes → Bytes → Turn Event
  handle (some m) no_error buf rest = next (message m ∷ []) rest
  handle object code buf rest = fail (error code buf)

  -- The body of the loop from `len = ntohl(len)` on. `buf = buf.substr(kHeaderLen + len, ...)` drops
  -- the frame.
  unfoldable pub turn_len : ℤ → Bytes → Turn Event
  turn_len len buf =
      let n = pos_part len in
      let parsed = parse (drop header_len buf) n in
      if int_gt len max_message_len || int_lt len min_message_len
      then fail (error invalid_length buf)
      else if leb (n + header_len) (length buf)
      then handle parsed.object parsed.code buf (drop (header_len + n) buf)
      else wait

  -- One round of the loop of onMessage.
  unfoldable pub turn : Bytes → Turn Event
  unfolding turn_len
  turn buf =
      if ltb (length buf) (min_message_len + header_len)
      then wait
      else turn_len (int32 (read_be32 buf)) buf

  -- The events of one call of onMessage, and what it leaves in the buffer.
  unfoldable pub on_message : Bytes → List Event × Bytes
  on_message buf = decode turn buf
