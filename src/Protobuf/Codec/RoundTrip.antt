-- ===== src/Protobuf/Codec/RoundTrip.antt =====
-- fillEmptyBuffer and onMessage of src/slite/protobuf/ProtobufCodec.cc together.
use serverlite.Base.{
  ℕ, ◌+◌, ◌-◌, ◌^◌, ◌≤◌, ◌<◌, ◌≡◌, ◌≢◌, refl, sym, ap, ◌∙◌, Bytes, length, take, drop, List, [],
  ◌∷◌, ◌++◌, map, concat, some, true, ◌&&◌, not, ltb, arith, length-append, take-append_exact,
  drop-append_exact, append_assoc, append-nil, ==_refl, drop-append_past, drop_all, length-pos,
}
use serverlite.Base.Words.{be32, read_be32, int32_pos, length-be32, read_be32-be32, pos}
use serverlite.Framing.{wait, next, decode, decode-next, decode-append, decode_settles}
use serverlite.Protobuf.Runtime.{Runtime, Serves, checksum}
use serverlite.Protobuf.Codec.{
  no_error, Event, message, parse, parse_name, turn, on_message, frame_body, fill_empty_buffer,
  max_message_len,
}
use serverlite.Protobuf.Codec.Stream.{Frame-turn_len, turn-turn_len, turn-IsIncremental}

-- A message that can be sent: its type is known at the other end, has a name, and the frame is not
-- too long.
pub record IsSendable (rt : Runtime) (m : rt.Message) : Type 0 where
  pub serves : Serves rt m
  pub named : rt.type_name m ≢ []
  pub fits : length (frame_body rt m) + 4 ≤ max_message_len

module _ (rt : Runtime) where
  take_name :
      (name ser tail : Bytes) (n : ℕ)
      → n ≡ length name
      → take n ((name ++ 0 ∷ []) ++ (ser ++ tail)) ≡ name
  take_name name ser tail n e =
      rw (append_assoc name (0 ∷ []) (ser ++ tail)) (take-append_exact n name _ e)

  drop_name :
      (name ser tail : Bytes) (n : ℕ)
      → n ≡ length name + 1
      → drop n ((name ++ 0 ∷ []) ++ (ser ++ tail)) ≡ ser ++ tail
  drop_name name ser tail n e =
      drop-append_exact n (name ++ 0 ∷ []) (ser ++ tail)
        (omega (arith, length-append name (0 ∷ [])))

  parse_name-frame :
      (m : rt.Message) (head tail : Bytes) (n : ℕ)
      → IsSendable rt m
      → length head ≡ 4
      → n ≡ length (rt.type_name m) + length (rt.serialize m) + 9
      → parse_name rt
          (pos (length (rt.type_name m) + 1))
          (head ++ ((rt.type_name m ++ 0 ∷ []) ++ (rt.serialize m ++ tail)))
          n
        ≡ record { object = some m; code = no_error }
  unfolding parse_name
  parse_name-frame m head tail n s h e =
      let name = rt.type_name m in
      let ser = rt.serialize m in
      let pieces = (name ++ 0 ∷ []) ++ (ser ++ tail) in
      let L = length name in
      let pos_len = length-pos name s.named in
      let in_range : (not (ltb (L + 1) 2) && not (ltb (n - 8) (L + 1))) ≡ true = ground arith in
      let found = s.serves.found in
      rw (
        in_range,
        drop-append_past 4 0 head pieces (omega arith),
        drop-append_past (4 + (L + 1)) (L + 1) head pieces (omega arith),
        take_name name ser tail (L + 1 - 1) (omega arith),
        drop_name name ser tail (L + 1) refl,
        take-append_exact (n - (L + 1) - 8) ser tail (omega arith),
        s.serves.found,
        s.serves.parses,
      )

  -- The buffer that fillEmptyBuffer has before it puts the length in front, taken apart.
  sealed : (m : rt.Message) → Bytes
  sealed m = frame_body rt m ++ be32 (checksum rt (frame_body rt m))

  sealed-split :
      (m : rt.Message)
      → sealed m
        ≡ be32 (length (rt.type_name m) + 1)
          ++ ((rt.type_name m ++ 0 ∷ [])
              ++ (rt.serialize m ++ be32 (checksum rt (frame_body rt m))))
  unfolding sealed frame_body
  sealed-split m = simp append_assoc

  length-frame_body :
      (m : rt.Message)
      → length (frame_body rt m) ≡ length (rt.type_name m) + length (rt.serialize m) + 5
  unfolding frame_body
  length-frame_body m = omega (
    arith,
    length-append (be32 (length (rt.type_name m) + 1))
        ((rt.type_name m ++ 0 ∷ []) ++ rt.serialize m),
    length-be32 (length (rt.type_name m) + 1),
    length-append (rt.type_name m ++ 0 ∷ []) (rt.serialize m),
    length-append (rt.type_name m) (0 ∷ []),
  )

  length-sealed : (m : rt.Message) → length (sealed m) ≡ length (frame_body rt m) + 4
  unfolding sealed
  length-sealed m = omega (
    arith,
    length-append (frame_body rt m) (be32 (checksum rt (frame_body rt m))),
    length-be32 (checksum rt (frame_body rt m)),
  )

  name_len-lt : (m : rt.Message) → IsSendable rt m → length (rt.type_name m) + 1 < 2 ^ 31
  name_len-lt m s = let fits = s.fits in omega (arith, length-frame_body m)

  take_body : (m : rt.Message) → take (length (sealed m) - 4) (sealed m) ≡ frame_body rt m
  unfolding sealed
  take_body m = take-append_exact _ (frame_body rt m) _ (size m)
    where
      size : (m : rt.Message) → length (sealed m) - 4 ≡ length (frame_body rt m)
      size m = omega (arith, length-sealed m)

  drop_body :
      (m : rt.Message)
      → read_be32 (drop (length (sealed m) - 4) (sealed m)) ≡ checksum rt (frame_body rt m)
  unfolding sealed
  drop_body m =
      let cs = checksum rt (frame_body rt m) in
      let tail = drop-append_exact (length (sealed m) - 4) (frame_body rt m) (be32 cs) (size m) in
      ap read_be32 (tail ∙ sym (append-nil (be32 cs))) ∙ read_be32-be32 cs [] (omega arith)
    where
      size : (m : rt.Message) → length (sealed m) - 4 ≡ length (frame_body rt m)
      size m = omega (arith, length-sealed m)

  read_name_len :
      (m : rt.Message) → IsSendable rt m → read_be32 (sealed m) ≡ length (rt.type_name m) + 1
  read_name_len m s =
      let lt = name_len-lt m s in
      rw (sealed-split m) (read_be32-be32 (length (rt.type_name m) + 1) _ (omega arith))

  parse-sealed :
      (m : rt.Message)
      → IsSendable rt m
      → parse rt (sealed m) (length (sealed m)) ≡ record { object = some m; code = no_error }
  unfolding parse
  parse-sealed m s =
      let B = sealed m in
      let n = length B in
      rw
        (
          take_body m,
          drop_body m,
          ==_refl (checksum rt (frame_body rt m)),
          read_name_len m s,
          int32_pos (length (rt.type_name m) + 1) (name_len-lt m s),
        )
        (rw (sealed-split m) (
          parse_name-frame m (be32 (length (rt.type_name m) + 1)) _ _ s (length-be32 _)
            (omega (arith, ap length (sealed-split m), length-sealed m, length-frame_body m))))

  fill_empty_buffer-sealed :
      (m : rt.Message) → fill_empty_buffer rt m ≡ be32 (length (sealed m)) ++ sealed m
  unfolding fill_empty_buffer sealed
  fill_empty_buffer-sealed m = refl

  turn_frame :
      (m : rt.Message)
      → IsSendable rt m
      → turn rt (be32 (length (sealed m)) ++ sealed m) ≡ next (message m ∷ []) []
  turn_frame m s =
      let n = length (sealed m) in
      let B = sealed m in
      let fits = s.fits in
      let size = length-sealed m in
      let body = length-frame_body m in
      let name = length-pos (rt.type_name m) s.named in
      let total = length-append (be32 n) B in
      let head = length-be32 n in
      turn-turn_len rt (be32 n ++ B) (omega arith)
      ∙ rw (read_be32-be32 n B (omega arith), int32_pos n (omega arith))
          (Frame-turn_len rt n (be32 n ++ B) (omega arith) (omega arith) (omega arith)
            ∙ rw (
              drop-append_past 4 0 (be32 n) B (omega arith),
              drop-append_past (4 + n) n (be32 n) B (omega arith),
              drop_all n B (omega arith),
              parse-sealed m s,
            ))

  -- With anything behind the frame, one round delivers the message and leaves the rest.
  pub turn-fill_empty_buffer :
      (m : rt.Message) (rest : Bytes)
      → IsSendable rt m
      → turn rt (fill_empty_buffer rt m ++ rest) ≡ next (message m ∷ []) rest
  turn-fill_empty_buffer m rest s =
      rw (fill_empty_buffer-sealed m) ((turn-IsIncremental rt).stable _ rest _ [] (turn_frame m s))

  abbrev pub AllSendable : List rt.Message → Type 0
  AllSendable [] = Unit
  AllSendable (m ∷ ms) = IsSendable rt m × AllSendable ms

  -- Messages that can be sent, encoded one after the other by fillEmptyBuffer, are delivered by
  -- onMessage in that order, whatever bytes follow them; the bytes that follow are then treated as
  -- if they had come alone.
  pub on_message-fill_empty_buffer :
      (ms : List rt.Message) (rest : Bytes)
      → AllSendable ms
      → on_message rt (concat (map (fill_empty_buffer rt) ms) ++ rest)
        ≡ (map message ms ++ (on_message rt rest).0, (on_message rt rest).1)
  unfolding on_message
  on_message-fill_empty_buffer [] rest all = refl
  on_message-fill_empty_buffer (m ∷ ms) rest all =
      rw (append_assoc (fill_empty_buffer rt m) (concat (map (fill_empty_buffer rt) ms)) rest) (
        decode-next (turn rt) (turn-IsIncremental rt) _ _ _ (turn-fill_empty_buffer m _ all.0)
        ∙ rw (on_message-fill_empty_buffer ms rest all.1))

  pub on_message_sent :
      (ms : List rt.Message)
      → AllSendable ms
      → on_message rt (concat (map (fill_empty_buffer rt) ms)) ≡ (map message ms, [])
  unfolding on_message decode turn
  on_message_sent ms all =
      let frames = concat (map (fill_empty_buffer rt) ms) in
      ap (on_message rt) (sym (append-nil frames))
      ∙ on_message-fill_empty_buffer ms [] all
      ∙ ap (λ (es : List (Event rt)). (es, [])) (append-nil (map message ms))

  -- However the stream is cut into reads: where the first read leaves onMessage waiting for more,
  -- the second call, on what was left with the new bytes behind it, reports what is missing from
  -- one call on the whole stream, and leaves the same bytes.
  pub on_message-append :
      (a c : Bytes)
      → turn rt (on_message rt a).1 ≡ wait
      → on_message rt (a ++ c) ≡ (
        (on_message rt a).0 ++ (on_message rt ((on_message rt a).1 ++ c)).0,
        (on_message rt ((on_message rt a).1 ++ c)).1,
      )
  unfolding on_message
  on_message-append a c w = decode-append (turn rt) (turn-IsIncremental rt) a c w

  -- The loop of onMessage ends by its own conditions on every buffer: what it leaves has no
  -- message in front that another round would deliver.
  pub on_message_settles :
      (b : Bytes) (es : List (Event rt)) (r : Bytes) → turn rt (on_message rt b).1 ≢ next es r
  unfolding on_message
  on_message_settles b es r = decode_settles (turn rt) (turn-IsIncremental rt) b es r
