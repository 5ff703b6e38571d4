-- ===== src/Protobuf/Codec/Stream.antt =====
-- A round of src/slite/protobuf/ProtobufCodec.cc on a buffer with more bytes behind it.
use serverlite.Base.{
  ℕ, ◌+◌, ◌-◌, ◌*◌, ◌≤◌, ◌<◌, ◌≡◌, refl, ap, Bytes, length, drop, List, ◌++◌, Option, some, false,
  ◌||◌, ◌&&◌, not, ltb, leb, arith, length-append, length-drop, take-append, drop-append,
  Bool-cases, le→leb, ◌∙◌, inl, inr,
}
use serverlite.Base.Words.{read_be32, int32, read_be32-append, ℤ, pos, negsuc}
use serverlite.Framing.{next, IsIncremental}
use serverlite.Protobuf.Runtime.{Runtime}
use serverlite.Protobuf.Codec.{
  ErrorCode, no_error, Event, parse, parse_name, handle, turn, turn_len,
}

module _ (rt : Runtime) where
  parse_name-append :
      (z : ℤ) (x c : Bytes) (n : ℕ)
      → 8 ≤ n
      → n ≤ length x
      → parse_name rt z (x ++ c) n ≡ parse_name rt z x n
  unfolding parse_name
  parse_name-append (negsuc k) x c n lo hi = refl
  parse_name-append (pos k) x c n lo hi = elim (Bool-cases (not (ltb k 2) && not (ltb (n - 8) k))) [
    | inr e ↦ rw e
    | inl e ↦
        let bound : (2 ≤ k) × (k ≤ n - 8) = (ground arith, ground arith) in
        rw (
          e,
          drop-append 4 x c (omega arith),
          drop-append (4 + k) x c (omega arith),
          take-append (k - 1) (drop 4 x) c (omega (arith, length-drop 4 x)),
          take-append (n - k - 8) (drop (4 + k) x) c (omega (arith, length-drop (4 + k) x)),
        )
  ]

  -- parse reads nothing behind the frame.
  pub parse-append :
      (x c : Bytes) (n : ℕ) → 8 ≤ n → n ≤ length x → parse rt (x ++ c) n ≡ parse rt x n
  unfolding parse
  parse-append x c n lo hi = rw (
    take-append (n - 4) x c (omega arith),
    drop-append (n - 4) x c (omega arith),
    read_be32-append (drop (n - 4) x) c (omega (arith, length-drop (n - 4) x)),
    read_be32-append x c (omega arith),
    parse_name-append (int32 (read_be32 x)) x c n lo hi,
  )

  -- A round that goes on has a whole frame in front, in range, and drops exactly it.
  pub record Frame (z : ℤ) (b : Bytes) (es : List (Event rt)) (r : Bytes) : Type 0 where
    pub len : ℕ
    pub is_len : z ≡ pos len
    pub lo : 10 ≤ len
    pub hi : len ≤ 64 * 1024 * 1024
    pub whole : len + 4 ≤ length b
    pub rest : r ≡ drop (4 + len) b
    pub handled :
        handle rt
          (parse rt (drop 4 b) len).object
          (parse rt (drop 4 b) len).code
          b
          (drop (4 + len) b)
        ≡ next es r

  handle_rest :
      (o : Option rt.Message) (k : ErrorCode) (b rest : Bytes) (es : List (Event rt)) (r : Bytes)
      → handle rt o k b rest ≡ next es r
      → r ≡ rest
  handle_rest (some m) no_error b rest es r e = ground arith
  handle_rest _ _ b rest es r e = cc

  handle_stable :
      (o : Option rt.Message) (k : ErrorCode) (b b' rest rest' : Bytes) (es : List (Event rt))
      (r : Bytes)
      → handle rt o k b rest ≡ next es r
      → handle rt o k b' rest' ≡ next es rest'
  handle_stable (some m) no_error b b' rest rest' es r e = ground arith
  handle_stable _ _ b b' rest rest' es r e = cc

  turn_len-Frame :
      (z : ℤ) (b : Bytes) (es : List (Event rt)) (r : Bytes)
      → turn_len rt z b ≡ next es r
      → Frame z b es r
  unfolding turn_len
  turn_len-Frame (negsuc k) b es r e = absurd (cc e)
  turn_len-Frame (pos k) b es r e = elim (Bool-cases (ltb (64 * 1024 * 1024) k || ltb k 10)) [
    | inl bad ↦ absurd (cc (rw bad at e))
    | inr good ↦ elim (Bool-cases (leb (k + 4) (length b))) [
      | inr short ↦ absurd (cc (rw short at (rw good at e)))
      | inl whole ↦
          let h = rw whole at (rw good at e) in
          record {
            len = k;
            is_len = refl;
            lo = ground arith;
            hi = ground arith;
            whole = ground arith;
            rest =
                handle_rest (parse rt (drop 4 b) k).object (parse rt (drop 4 b) k).code b
                  (drop (4 + k) b) es r h;
            handled = h;
          }
    ]
  ]

  pub Frame-turn_len :
      (k : ℕ) (b : Bytes)
      → 10 ≤ k
      → k ≤ 64 * 1024 * 1024
      → k + 4 ≤ length b
      → turn_len rt (pos k) b
        ≡ handle rt (parse rt (drop 4 b) k).object (parse rt (drop 4 b) k).code b (drop (4 + k) b)
  unfolding turn_len
  Frame-turn_len k b lo hi whole =
      let fits : (ltb (64 * 1024 * 1024) k || ltb k 10) ≡ false = ground arith in
      rw (fits, le→leb (k + 4) (length b) whole)

  pub turn-turn_len : (b : Bytes) → 14 ≤ length b → turn rt b ≡ turn_len rt (int32 (read_be32 b)) b
  unfolding turn
  turn-turn_len b h = let long : ltb (length b) 14 ≡ false = ground arith in rw long

  pub turn-Frame :
      (b : Bytes) (es : List (Event rt)) (r : Bytes)
      → turn rt b ≡ next es r
      → (14 ≤ length b) × Frame (int32 (read_be32 b)) b es r
  unfolding turn
  turn-Frame b es r e = elim (Bool-cases (ltb (length b) 14)) [
    | inl short ↦ absurd (cc (rw short at e))
    | inr long ↦ (ground arith, turn_len-Frame (int32 (read_be32 b)) b es r (rw long at e))
  ]

  turn-shrinks :
      (b : Bytes) (es : List (Event rt)) (r : Bytes) → turn rt b ≡ next es r → length r < length b
  turn-shrinks b es r e =
      let f = (turn-Frame b es r e).1 in
      let h = f.whole in omega (arith, ap length f.rest, length-drop (4 + f.len) b)

  turn-stable :
      (b c : Bytes) (es : List (Event rt)) (r : Bytes)
      → turn rt b ≡ next es r
      → turn rt (b ++ c) ≡ next es (r ++ c)
  turn-stable b c es r e =
      let (long, f) = turn-Frame b es r e in
      let k = f.len in
      let lo = f.lo in
      let h = f.whole in
      let total = length-append b c in
      turn-turn_len (b ++ c) (omega arith)
      ∙ rw (read_be32-append b c (omega arith), f.is_len)
          (Frame-turn_len k (b ++ c) lo f.hi (omega arith)
            ∙ rw
                (
                  drop-append 4 b c (omega arith),
                  parse-append (drop 4 b) c k (omega arith) (omega (arith, length-drop 4 b)),
                  drop-append (4 + k) b c (omega arith),
                  f.rest,
                )
                (handle_stable _ _ b (b ++ c) (drop (4 + k) b) (drop (4 + k) b ++ c) es r
                  f.handled))

  pub turn-IsIncremental : IsIncremental (turn rt)
  turn-IsIncremental = record { shrinks = turn-shrinks; stable = turn-stable }
