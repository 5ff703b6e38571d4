-- ===== src/Protobuf/Lite/Stream.antt =====
-- A round of src/slite/protobuf/ProtobufCodecLite.cc on a buffer with more bytes behind it.
use serverlite.Base.{
  ℕ, ◌+◌, ◌-◌, ◌≤◌, ◌<◌, ◌≡◌, refl, ap, ◌∙◌, Bytes, length, take, drop, List, [], ◌∷◌, ◌++◌, Option,
  some, false, ◌||◌, ltb, leb, if◌then◌else◌, arith, length-append, length-drop, take-append,
  drop-append, Bool-cases, le→leb, inl, inr,
}
use serverlite.Base.Words.{read_be32, int32, read_be32-append, ℤ, pos, negsuc}
use serverlite.Framing.{Turn, next, IsIncremental}
use serverlite.Protobuf.Runtime.{Runtime}
use serverlite.Protobuf.Codec.{ErrorCode, no_error, max_message_len}
use serverlite.Protobuf.Lite.{Config, Event, raw_message, parse, handle, turn, turn_len, skips}

module _ (rt : Runtime) (c : Config rt) where
  parse-append :
      (x y : Bytes) (n : ℕ)
      → length c.tag + 4 ≤ n
      → n ≤ length x
      → parse rt c (x ++ y) n ≡ parse rt c x n
  unfolding parse
  parse-append x y n lo hi =
      let t = length c.tag in
      rw (
        take-append (n - 4) x y (omega arith),
        drop-append (n - 4) x y (omega arith),
        read_be32-append (drop (n - 4) x) y (omega (arith, length-drop (n - 4) x)),
        drop-append t x y (omega arith),
        take-append (n - 4 - t) (drop t x) y (omega (arith, length-drop t x)),
        drop-append 4 x y (omega arith),
        take-append t (drop 4 x) y (omega (arith, length-drop 4 x)),
      )

  -- What a round does with a whole frame of `len` bytes in range.
  abbrev pub on_frame : ℕ → Bytes → Turn (Event rt)
  on_frame len b =
      if skips rt c.raw (take len (drop 4 b))
      then next (raw_message (take len (drop 4 b)) ∷ []) (drop (4 + len) b)
      else handle rt (parse rt c (drop 4 b) len) b (drop (4 + len) b)

  pub record Frame (z : ℤ) (b : Bytes) (es : List (Event rt)) (r : Bytes) : Type 0 where
    pub len : ℕ
    pub is_len : z ≡ pos len
    pub lo : length c.tag + 4 ≤ len
    pub hi : len ≤ max_message_len
    pub whole : len + 4 ≤ length b
    pub handled : on_frame len b ≡ next es r

  handle_rest :
      (p : Option rt.Message × ErrorCode) (b rest : Bytes) (es : List (Event rt)) (r : Bytes)
      → handle rt p b rest ≡ next es r
      → r ≡ rest
  handle_rest (some m, no_error) b rest es r e = ground arith
  handle_rest (_, _) b rest es r e = cc

  handle_stable :
      (p : Option rt.Message × ErrorCode) (b b' rest rest' : Bytes) (es : List (Event rt))
      (r : Bytes)
      → handle rt p b rest ≡ next es r
      → handle rt p b' rest' ≡ next es rest'
  handle_stable (some m, no_error) b b' rest rest' es r e = ground arith
  handle_stable (_, _) b b' rest rest' es r e = cc

  on_frame_rest :
      (n : ℕ) (b : Bytes) (es : List (Event rt)) (r : Bytes)
      → on_frame n b ≡ next es r
      → r ≡ drop (4 + n) b
  on_frame_rest n b es r e = elim (Bool-cases (skips rt c.raw (take n (drop 4 b)))) [
    | inl s ↦ let h = rw s at e in ground arith
    | inr s ↦ handle_rest (parse rt c (drop 4 b) n) b (drop (4 + n) b) es r (rw s at e)
  ]

  on_frame_stable :
      (n : ℕ) (b y : Bytes) (es : List (Event rt)) (r : Bytes)
      → length c.tag + 4 ≤ n
      → n + 4 ≤ length b
      → on_frame n b ≡ next es r
      → on_frame n (b ++ y) ≡ next es (r ++ y)
  on_frame_stable n b y es r lo whole e =
      rw
        (
          drop-append 4 b y (omega arith),
          take-append n (drop 4 b) y (omega (arith, length-drop 4 b)),
          parse-append (drop 4 b) y n lo (omega (arith, length-drop 4 b)),
          drop-append (4 + n) b y (omega arith),
          on_frame_rest n b es r e,
        )
        (elim (Bool-cases (skips rt c.raw (take n (drop 4 b)))) [
          | inl s ↦
              let h : next (raw_message (take n (drop 4 b)) ∷ []) (drop (4 + n) b) ≡ next es r =
                rw s at e in
              rw s (ground arith)
          | inr s ↦ rw s (
              handle_stable (parse rt c (drop 4 b) n) b (b ++ y) (drop (4 + n) b)
                (drop (4 + n) b ++ y) es r (rw s at e))
        ])

  turn_len-Frame :
      (z : ℤ) (b : Bytes) (es : List (Event rt)) (r : Bytes)
      → turn_len rt c z b ≡ next es r
      → Frame z b es r
  unfolding turn_len
  turn_len-Frame (negsuc k) b es r e = absurd (cc e)
  turn_len-Frame (pos k) b es r e =
      elim (Bool-cases (ltb max_message_len k || ltb k (length c.tag + 4))) [
        | inl bad ↦ absurd (cc (rw bad at e))
        | inr good ↦ elim (Bool-cases (leb (k + 4) (length b))) [
          | inr short ↦ absurd (cc (rw short at (rw good at e)))
          | inl whole ↦ record {
            len = k;
            is_len = refl;
            lo = ground arith;
            hi = ground arith;
            whole = ground arith;
            handled = rw whole at (rw good at e);
          }
        ]
      ]

  pub Frame-turn_len :
      (k : ℕ) (b : Bytes)
      → length c.tag + 4 ≤ k
      → k ≤ max_message_len
      → k + 4 ≤ length b
      → turn_len rt c (pos k) b ≡ on_frame k b
  unfolding turn_len
  Frame-turn_len k b lo hi whole =
      let fits : (ltb max_message_len k || ltb k (length c.tag + 4)) ≡ false = ground arith in
      rw (fits, le→leb (k + 4) (length b) whole)

  pub turn-turn_len :
      (b : Bytes)
      → length c.tag + 8 ≤ length b
      → turn rt c b ≡ turn_len rt c (int32 (read_be32 b)) b
  unfolding turn
  turn-turn_len b h =
      let long : ltb (length b) (length c.tag + 4 + 4) ≡ false = ground arith in rw long

  turn-Frame :
      (b : Bytes) (es : List (Event rt)) (r : Bytes)
      → turn rt c b ≡ next es r
      → (length c.tag + 8 ≤ length b) × Frame (int32 (read_be32 b)) b es r
  unfolding turn
  turn-Frame b es r e = elim (Bool-cases (ltb (length b) (length c.tag + 4 + 4))) [
    | inl short ↦ absurd (cc (rw short at e))
    | inr long ↦ (ground arith, turn_len-Frame (int32 (read_be32 b)) b es r (rw long at e))
  ]

  turn-shrinks :
      (b : Bytes) (es : List (Event rt)) (r : Bytes) → turn rt c b ≡ next es r → length r < length b
  turn-shrinks b es r e =
      let f = (turn-Frame b es r e).1 in
      let h = f.whole in
      let left = on_frame_rest f.len b es r f.handled in
      omega (arith, ap length left, length-drop (4 + f.len) b)

  turn-stable :
      (b y : Bytes) (es : List (Event rt)) (r : Bytes)
      → turn rt c b ≡ next es r
      → turn rt c (b ++ y) ≡ next es (r ++ y)
  turn-stable b y es r e =
      let (long, f) = turn-Frame b es r e in
      let lo = f.lo in
      let h = f.whole in
      let total = length-append b y in
      turn-turn_len (b ++ y) (omega arith)
      ∙ rw (read_be32-append b y (omega arith), f.is_len)
          (Frame-turn_len f.len (b ++ y) lo f.hi (omega arith)
            ∙ on_frame_stable f.len b y es r lo h f.handled)

  pub turn-IsIncremental : IsIncremental (turn rt c)
  turn-IsIncremental = record { shrinks = turn-shrinks; stable = turn-stable }
