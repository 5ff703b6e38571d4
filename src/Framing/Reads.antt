-- ===== src/Framing/Reads.antt =====
-- A decoding loop run at every read of a stream, on what the last run left with the new bytes
-- behind it, as handleRecv of src/slite/TCPConnection.cc calls onMessage.
use serverlite.Base.{
  ℕ, zero, suc, ◌<◌, ◌≡◌, sym, ◌∙◌, List, [], ◌∷◌, ◌++◌, Bytes, length, concat, append_assoc,
  append-nil, arith, inl, inr,
}
use serverlite.Framing.Defs.{Turn, wait, fail, decode, IsIncremental}
use serverlite.Framing.Laws.{Turn-cases, decode-append, decode-next, decode_wait, decode_fail}

-- A failure is not taken back when more bytes come.
abbrev pub FailsForGood : {E : Type 0} → (Bytes → Turn E) → Type 0
FailsForGood {E = E} turn =
    (b c : Bytes) (e : E) → turn b ≡ fail e → (e' : E) × (turn (b ++ c) ≡ fail e')

unfoldable pub feed : {E : Type 0} → (Bytes → Turn E) → Bytes → List Bytes → List E × Bytes
feed turn buf [] = ([], buf)
feed turn buf (c ∷ cs) =
    let (es, left) = decode turn (buf ++ c) in
    let (es', left') = feed turn left cs in (es ++ es', left')

module _ {E : Type 0} (turn : Bytes → Turn E) (inc : IsIncremental turn)
    (for_good : FailsForGood turn) where
  prefix_waits_on :
      (f : ℕ) (a c : Bytes)
      → length a < f
      → turn (decode turn (a ++ c)).1 ≡ wait
      → turn (decode turn a).1 ≡ wait
  prefix_waits_on zero a c h w = absurd (omega arith)
  prefix_waits_on (suc f) a c h w = elim (Turn-cases (turn a)) [
    | inl e ↦ rw (decode_wait turn a e) e
    | inr (inl (x, e)) ↦
        let (y, e') = for_good a c x e in
        absurd (cc (sym e' ∙ (rw (decode_fail turn (a ++ c) y e') at w)))
    | inr (inr (es, r, e)) ↦
        let s = inc.shrinks a es r e in
        let w' = rw (decode-next turn inc (a ++ c) es (r ++ c) (inc.stable a c es r e)) at w in
        rw (decode-next turn inc a es r e) (prefix_waits_on f r c (omega arith) w')
  ]

  -- A run on the whole stream that ends waiting waited on every front of it.
  pub prefix_waits :
      (a c : Bytes) → turn (decode turn (a ++ c)).1 ≡ wait → turn (decode turn a).1 ≡ wait
  prefix_waits a c w = prefix_waits_on (suc (length a)) a c (omega arith) w

  -- Where a run on the whole stream ends waiting, the reads report and leave what it does, however
  -- the stream is cut into them.
  pub feed-concat :
      (cs : List Bytes) (buf : Bytes)
      → turn buf ≡ wait
      → turn (decode turn (buf ++ concat cs)).1 ≡ wait
      → feed turn buf cs ≡ decode turn (buf ++ concat cs)
  unfolding feed
  feed-concat [] buf e w = rw (append-nil buf) (sym (decode_wait turn buf e))
  feed-concat (c ∷ cs) buf e w =
      let whole = append_assoc buf c (concat cs) in
      let w1 = rw (sym whole) at w in
      let mid = prefix_waits (buf ++ c) (concat cs) w1 in
      let both = decode-append turn inc (buf ++ c) (concat cs) mid in
      let ih = feed-concat cs (decode turn (buf ++ c)).1 mid (rw both at w1) in
      rw (sym whole, both, ih)
