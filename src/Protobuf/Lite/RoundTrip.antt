-- ===== src/Protobuf/Lite/RoundTrip.antt =====
-- What ProtobufCodecLite::parse makes of the frames that fillEmptyBuffer writes.
use serverlite.Base.{
  ◌+◌, ◌-◌, ◌≤◌, ◌≡◌, refl, sym, ap, ◌∙◌, Bytes, length, take, drop, [], ◌∷◌, ◌++◌, some, none,
  Bool, true, false, not, ltb, if◌then◌else◌, arith, length-append, take-append_exact,
  drop-append_exact, append_assoc, append-nil, ==_refl, drop-append_past, drop_all, bytes_eq,
}
use serverlite.Base.Words.{be32, read_be32, int32_pos, length-be32, read_be32-be32}
use serverlite.Framing.{wait, decode-next, decode-append, decode_wait, decode_fail}
use serverlite.Protobuf.Runtime.{Runtime, checksum}
use serverlite.Protobuf.Codec.{invalid_name_len, max_message_len}
use serverlite.Protobuf.Lite.{
  Config, message, error, parse, handle, turn, skips, payload_code, fill_empty_buffer, on_message,
}
use serverlite.Protobuf.Lite.Stream.{turn-IsIncremental, turn-turn_len, Frame-turn_len, on_frame}

module _ (rt : Runtime) (c : Config rt) where
  -- The bytes of a frame behind its length: any `tag`, the payload, the checksum of both.
  abbrev pub sealed : Bytes → rt.Message → Bytes
  sealed tag m = (tag ++ rt.serialize m) ++ be32 (checksum rt (tag ++ rt.serialize m))

  length-sealed :
      (tag : Bytes) (m : rt.Message)
      → length (sealed tag m) ≡ length tag + length (rt.serialize m) + 4
  length-sealed tag m = omega (
    arith,
    length-append (tag ++ rt.serialize m) (be32 (checksum rt (tag ++ rt.serialize m))),
    length-be32 (checksum rt (tag ++ rt.serialize m)),
    length-append tag (rt.serialize m),
  )

  -- memcmp finds the tag again, four bytes behind the place where it was written.
  abbrev pub repeats : Bytes → rt.Message → Bool
  repeats tag m = bytes_eq (take (length c.tag) (drop 4 (sealed tag m))) c.tag

  size-body :
      (tag : Bytes) (m : rt.Message) → length (sealed tag m) - 4 ≡ length (tag ++ rt.serialize m)
  size-body tag m = omega (arith, length-sealed tag m, length-append tag (rt.serialize m))

  read_sum :
      (tag : Bytes) (m : rt.Message)
      → read_be32 (drop (length (sealed tag m) - 4) (sealed tag m))
        ≡ checksum rt (tag ++ rt.serialize m)
  read_sum tag m =
      let cs = checksum rt (tag ++ rt.serialize m) in
      let tail = drop-append_exact _ (tag ++ rt.serialize m) (be32 cs) (size-body tag m) in
      ap read_be32 (tail ∙ sym (append-nil (be32 cs))) ∙ read_be32-be32 cs [] (omega arith)

  payload :
      (tag : Bytes) (m : rt.Message)
      → length tag ≡ length c.tag
      → take (length (sealed tag m) - 4 - length c.tag) (drop (length c.tag) (sealed tag m))
        ≡ rt.serialize m
  payload tag m e =
      let cs = be32 (checksum rt (tag ++ rt.serialize m)) in
      ap (take (length (sealed tag m) - 4 - length c.tag)) (
        ap (drop (length c.tag)) (append_assoc tag (rt.serialize m) cs)
        ∙ drop-append_exact (length c.tag) tag (rt.serialize m ++ cs) (sym e))
      ∙ take-append_exact (length (sealed tag m) - 4 - length c.tag) (rt.serialize m) cs
          (omega (arith, length-sealed tag m))

  parse-sealed :
      (tag : Bytes) (m m' : rt.Message) (parsed : Bool)
      → length tag ≡ length c.tag
      → rt.parse_from_array c.prototype (rt.serialize m) ≡ (m', parsed)
      → parse rt c (sealed tag m) (length (sealed tag m)) ≡ (
          if not (repeats tag m)
          then (some m', payload_code rt parsed)
          else (none, invalid_name_len))
  unfolding parse
  parse-sealed tag m m' parsed e p = rw (
    take-append_exact (length (sealed tag m) - 4) (tag ++ rt.serialize m) _ (size-body tag m),
    read_sum tag m,
    ==_refl (checksum rt (tag ++ rt.serialize m)),
    payload tag m e,
    p,
  )

  pub fill_empty_buffer-sealed :
      (tag : Bytes) (m : rt.Message)
      → fill_empty_buffer rt tag m ≡ be32 (length (sealed tag m)) ++ sealed tag m
  unfolding fill_empty_buffer
  fill_empty_buffer-sealed tag m = refl

  turn_frame :
      (tag : Bytes) (m : rt.Message)
      → length tag ≡ length c.tag
      → length tag + length (rt.serialize m) + 4 ≤ max_message_len
      → turn rt c (be32 (length (sealed tag m)) ++ sealed tag m)
        ≡ on_frame rt c (length (sealed tag m)) (be32 (length (sealed tag m)) ++ sealed tag m)
  turn_frame tag m e fits =
      let n = length (sealed tag m) in
      let B = sealed tag m in
      let size = length-sealed tag m in
      let total = length-append (be32 n) B in
      let head = length-be32 n in
      turn-turn_len rt c (be32 n ++ B) (omega arith)
      ∙ rw (read_be32-be32 n B (omega arith), int32_pos n (omega arith))
          (Frame-turn_len rt c n (be32 n ++ B) (omega arith) (omega arith) (omega arith))

  no_skip : c.raw ≡ none → (frame : Bytes) → skips rt c.raw frame ≡ false
  no_skip e frame = ground arith

  turn_nil : turn rt c [] ≡ wait
  unfolding turn
  turn_nil = let short : ltb 0 (length c.tag + 4 + 4) ≡ true = ground arith in rw short

  pub on_message_nil : on_message rt c [] ≡ ([], [])
  unfolding on_message
  on_message_nil = decode_wait (turn rt c) [] turn_nil

  -- With no raw callback, and a frame written under any tag of the right length.
  turn-sealed :
      (tag : Bytes) (m m' : rt.Message) (parsed : Bool)
      → c.raw ≡ none
      → length tag ≡ length c.tag
      → length tag + length (rt.serialize m) + 4 ≤ max_message_len
      → rt.parse_from_array c.prototype (rt.serialize m) ≡ (m', parsed)
      → turn rt c (fill_empty_buffer rt tag m)
        ≡ handle rt
            (if not (repeats tag m)
              then (some m', payload_code rt parsed)
              else (none, invalid_name_len))
            (fill_empty_buffer rt tag m)
            []
  turn-sealed tag m m' parsed no_raw e fits p =
      let n = length (sealed tag m) in
      let B = sealed tag m in
      let head = length-be32 n in
      rw (fill_empty_buffer-sealed tag m) (
        turn_frame tag m e fits
        ∙ rw (
          no_skip no_raw _,
          drop-append_past 4 0 (be32 n) B (omega arith),
          drop-append_past (4 + n) n (be32 n) B (omega arith),
          drop_all n B (omega arith),
          parse-sealed tag m m' parsed e p,
        ))

  -- One frame that the peer's codec wrote with the same tag, its payload parseable, any bytes
  -- behind it, and no raw callback: if the tag does not stand once more four bytes into what
  -- follows the length, the message is delivered and the loop goes on behind the frame.
  pub on_message_tagged_frame :
      (m : rt.Message) (rest : Bytes)
      → c.raw ≡ none
      → length c.tag + length (rt.serialize m) + 4 ≤ max_message_len
      → rt.parse_from_array c.prototype (rt.serialize m) ≡ (m, true)
      → repeats c.tag m ≡ false
      → on_message rt c (fill_empty_buffer rt c.tag m ++ rest)
        ≡ (message m ∷ (on_message rt c rest).0, (on_message rt c rest).1)
  unfolding on_message
  on_message_tagged_frame m rest no_raw fits p apart =
      decode-next (turn rt c) (turn-IsIncremental rt c) _ (message m ∷ []) _ (
        (turn-IsIncremental rt c).stable _ rest (message m ∷ []) []
          (turn-sealed c.tag m m true no_raw refl fits p ∙ rw apart))

  -- The tag is not checked: with no raw callback, a frame written under any tag of the same length,
  -- not too long, its checksum right and its payload parseable, is delivered as if it had the codec's
  -- own tag, unless the codec's tag stands four bytes in.
  on_message_any_tag :
      (tag : Bytes) (m : rt.Message)
      → c.raw ≡ none
      → length tag ≡ length c.tag
      → length tag + length (rt.serialize m) + 4 ≤ max_message_len
      → rt.parse_from_array c.prototype (rt.serialize m) ≡ (m, true)
      → repeats tag m ≡ false
      → on_message rt c (fill_empty_buffer rt tag m) ≡ (message m ∷ [], [])
  unfolding on_message
  on_message_any_tag tag m no_raw e fits p apart =
      decode-next (turn rt c) (turn-IsIncremental rt c) _ (message m ∷ []) []
        (turn-sealed tag m m true no_raw e fits p ∙ rw apart)
      ∙ rw (decode_wait (turn rt c) [] turn_nil)

  -- With no raw callback, a message of the codec's own peer, not too long and its payload parseable,
  -- is refused, and stays in the buffer, where the tag stands again four bytes into what follows the
  -- length, as it does where a tag of four bytes begins the payload.
  on_message_refuses_tag :
      (m : rt.Message)
      → c.raw ≡ none
      → length c.tag + length (rt.serialize m) + 4 ≤ max_message_len
      → rt.parse_from_array c.prototype (rt.serialize m) ≡ (m, true)
      → repeats c.tag m ≡ true
      → on_message rt c (fill_empty_buffer rt c.tag m)
        ≡ (error invalid_name_len (fill_empty_buffer rt c.tag m) ∷ [], fill_empty_buffer rt c.tag m)
  unfolding on_message
  on_message_refuses_tag m no_raw fits p again =
      decode_fail (turn rt c) (fill_empty_buffer rt c.tag m) _
        (turn-sealed c.tag m m true no_raw refl fits p ∙ rw again)

  -- However the stream is cut into reads, onMessage on what was left and the new bytes reports what
  -- is missing from one call on the whole stream; the first call must have ended waiting.
  pub on_message_tagged-append :
      (a y : Bytes)
      → turn rt c (on_message rt c a).1 ≡ wait
      → on_message rt c (a ++ y) ≡ (
        (on_message rt c a).0 ++ (on_message rt c ((on_message rt c a).1 ++ y)).0,
        (on_message rt c ((on_message rt c a).1 ++ y)).1,
      )
  unfolding on_message
  on_message_tagged-append a y w = decode-append (turn rt c) (turn-IsIncremental rt c) a y w
