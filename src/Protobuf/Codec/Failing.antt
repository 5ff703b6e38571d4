-- ===== src/Protobuf/Codec/Failing.antt =====
-- A round of src/slite/protobuf/ProtobufCodec.cc that fails, with more bytes behind its buffer.
use serverlite.Base.{
  ◌+◌, ◌*◌, ◌≤◌, ◌≡◌, refl, Bytes, length, drop, ◌++◌, Option, some, none, ◌||◌, ltb, leb, arith,
  length-append, length-drop, drop-append, Bool-cases, le→leb, inl, inr,
}
use serverlite.Base.Words.{read_be32, int32, read_be32-append, ℤ, pos, negsuc}
use serverlite.Framing.{fail, FailsForGood}
use serverlite.Protobuf.Runtime.{Runtime}
use serverlite.Protobuf.Codec.{
  ErrorCode, no_error, Event, error, invalid_length, check_sum_error, invalid_name_len,
  unknown_message_type, parse_error, handle, turn, turn_len,
}
use serverlite.Protobuf.Codec.Stream.{parse-append, turn-turn_len}

module _ (rt : Runtime) where
  handle_fails :
      (o : Option rt.Message) (k : ErrorCode) (b b' rest rest' : Bytes) (e : Event rt)
      → handle rt o k b rest ≡ fail e
      → (e' : Event rt) × (handle rt o k b' rest' ≡ fail e')
  handle_fails (some m) no_error b b' rest rest' e h = absurd (cc h)
  handle_fails none k b b' rest rest' e h = (error k b', refl)
  handle_fails (some m) invalid_length b b' rest rest' e h = (error invalid_length b', refl)
  handle_fails (some m) check_sum_error b b' rest rest' e h = (error check_sum_error b', refl)
  handle_fails (some m) invalid_name_len b b' rest rest' e h = (error invalid_name_len b', refl)
  handle_fails (some m) unknown_message_type b b' rest rest' e h =
      (error unknown_message_type b', refl)
  handle_fails (some m) parse_error b b' rest rest' e h = (error parse_error b', refl)

  turn_len_fails :
      (z : ℤ) (b c : Bytes) (e : Event rt)
      → turn_len rt z b ≡ fail e
      → (e' : Event rt) × (turn_len rt z (b ++ c) ≡ fail e')
  unfolding turn_len
  turn_len_fails (negsuc k) b c e h = (error invalid_length (b ++ c), refl)
  turn_len_fails (pos k) b c e h = elim (Bool-cases (ltb (64 * 1024 * 1024) k || ltb k 10)) [
    | inl bad ↦ (error invalid_length (b ++ c), rw bad)
    | inr good ↦ elim (Bool-cases (leb (k + 4) (length b))) [
      | inr short ↦ absurd (cc (rw short at (rw good at h)))
      | inl whole ↦
          let lo : 10 ≤ k = ground arith in
          let hi : k ≤ 64 * 1024 * 1024 = ground arith in
          let in_b : k + 4 ≤ length b = ground arith in
          let total = length-append b c in
          rw
            (
              good,
              le→leb (k + 4) (length (b ++ c)) (omega arith),
              drop-append 4 b c (omega arith),
              parse-append rt (drop 4 b) c k (omega arith) (omega (arith, length-drop 4 b)),
            )
            (handle_fails _ _ b (b ++ c) (drop (4 + k) b) _ e (rw whole at (rw good at h)))
    ]
  ]

  pub turn-FailsForGood : FailsForGood (turn rt)
  unfolding turn
  turn-FailsForGood b c e h = elim (Bool-cases (ltb (length b) 14)) [
    | inl short ↦ absurd (cc (rw short at h))
    | inr long ↦
        let enough : 14 ≤ length b = ground arith in
        let total = length-append b c in
        rw (turn-turn_len rt (b ++ c) (omega arith), read_be32-append b c (omega arith))
          (turn_len_fails (int32 (read_be32 b)) b c e (rw long at h))
  ]
