-- ===== src/Protobuf/Lite.antt =====
-- src/slite/protobuf/ProtobufCodecLite.h and ProtobufCodecLite.cc: the codec with a fixed tag,
-- which src/slite/protorpc/RpcCodec.h takes at the tag "RPC0". The callbacks are the events of a
-- run.
mod Stream
pub mod RoundTrip
mod Tests
use serverlite.Base.{
  ℕ, ◌+◌, ◌-◌, ◌*◌, Bytes, length, take, drop, List, [], ◌∷◌, ◌++◌, Option, some, none, Bool, true,
  false, ◌||◌, ◌&&◌, not, ltb, leb, ◌==◌, if◌then◌else◌, bytes_eq, codes,
}
use serverlite.Base.Words.{be32, read_be32, int32, int_gt, int_lt, pos_part, ℤ}
use serverlite.Framing.{Turn, wait, fail, next, decode}
use serverlite.Protobuf.Runtime.{Runtime, checksum}
use serverlite.Protobuf.Codec.{
  ErrorCode, no_error, invalid_length, check_sum_error, invalid_name_len, parse_error, header_len,
  max_message_len,
}

abbrev pub checksum_len : ℕ
checksum_len = 4

-- rpctag of src/slite/protorpc/RpcCodec.cc.
abbrev pub rpctag : Bytes
rpctag = codes "RPC0"

-- The members of the codec; `raw` is rawMessageCallback_, none where it is not set.
pub record Config (rt : Runtime) : Type 0 where
  pub prototype : rt.Prototype
  pub tag : Bytes
  pub raw : Option (Bytes → Bool)

module _ (rt : Runtime) where
  open rt use {Message, serialize, parse_from_array}

  -- The three callbacks.
  pub data Event : Type 0 where
    message : Message → Event
    raw_message : Bytes → Event
    error : ErrorCode → Bytes → Event

  pub fill_empty_buffer : Bytes → Message → Bytes
  fill_empty_buffer tag m =
      let body = tag ++ serialize m in
      let buf = body ++ be32 (checksum rt body) in be32 (length buf) ++ buf

  abbrev pub payload_code : Bool → ErrorCode
  payload_code true = no_error
  payload_code false = parse_error

  -- The object after ParseFromArray (the fresh one, where that is not reached) and the code. The
  -- result of memcmp is true where the bytes differ.
  pub parse : Config rt → Bytes → ℕ → Option Message × ErrorCode
  parse c buf len =
      let t = length c.tag in
      let (m, parsed) = parse_from_array c.prototype (take (len - checksum_len - t) (drop t buf)) in
      if checksum rt (take (len - header_len) buf) == read_be32 (drop (len - header_len) buf)
      then if not (bytes_eq (take t (drop header_len buf)) c.tag)
        then (some m, payload_code parsed)
        else (none, invalid_name_len)
      else (none, check_sum_error)

  -- The branches after parse: messageCallback_ with the object, or the error.
  abbrev pub handle : Option Message × ErrorCode → Bytes → Bytes → Turn Event
  handle (some m, no_error) buf rest = next (message m ∷ []) rest
  handle (o, code) buf rest = fail (error code buf)

  -- `!rawMessageCallback_(conn, frame, receiveTime)`; the first component is the call, if made.
  abbrev pub skips : Option (Bytes → Bool) → Bytes → Bool
  skips none frame = false
  skips (some cb) frame = not (cb frame)

  pub turn_len : Config rt → ℤ → Bytes → Turn Event
  turn_len c len buf =
      let n = pos_part len in
      let frame = take n (drop header_len buf) in
      let rest = drop (header_len + n) buf in
      if int_gt len max_message_len || int_lt len (length c.tag + checksum_len)
      then fail (error invalid_length buf)
      else if leb (n + header_len) (length buf)
      then if skips c.raw frame
        then next (raw_message frame ∷ []) rest
        else handle (parse c (drop header_len buf) n) buf rest
      else wait

  -- One round of the loop of onMessage.
  pub turn : Config rt → Bytes → Turn Event
  unfolding turn_len
  turn c buf =
      if ltb (length buf) (length c.tag + checksum_len + header_len)
      then wait
      else turn_len c (int32 (read_be32 buf)) buf

  -- The events of one call of onMessage, and what it leaves in the buffer.
  pub on_message : Config rt → Bytes → List Event × Bytes
  on_message c buf = decode (turn c) buf
