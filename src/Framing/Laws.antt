-- ===== src/Framing/Laws.antt =====
-- The decoding loop: its fuel, its end, and streams cut into reads.
use serverlite.Base.{
  ℕ, zero, suc, ◌<◌, ◌≡◌, ◌≢◌, refl, sym, ◌∙◌, List, [], ◌∷◌, ◌++◌, Bytes, length, ap, append_assoc,
  arith, ◌⊎◌, inl, inr,
}
use serverlite.Framing.Defs.{Turn, wait, fail, next, run, decode, IsIncremental}

pub Turn-cases :
    {E : Type 0} (t : Turn E)
    → (t ≡ wait) ⊎ ((e : E) × (t ≡ fail e)) ⊎ ((es : List E) × (r : Bytes) × (t ≡ next es r))
Turn-cases wait = inl refl
Turn-cases (fail e) = inr (inl (e, refl))
Turn-cases (next es r) = inr (inr (es, r, refl))

module _ {E : Type 0} (turn : Bytes → Turn E) where
  run_wait : (f : ℕ) (b : Bytes) → turn b ≡ wait → run turn f b ≡ ([], b)
  unfolding run
  run_wait zero b e = refl
  run_wait (suc f) b e = rw (e, run)

  run_fail : (f : ℕ) (b : Bytes) (x : E) → turn b ≡ fail x → run turn (suc f) b ≡ (x ∷ [], b)
  unfolding run
  run_fail f b x e = rw (e, run)

  run_next :
      (f : ℕ) (b : Bytes) (es : List E) (r : Bytes)
      → turn b ≡ next es r
      → run turn (suc f) b ≡ (es ++ (run turn f r).0, (run turn f r).1)
  unfolding run
  run_next f b es r e = rw (e, run)

module _ {E : Type 0} (turn : Bytes → Turn E) (inc : IsIncremental turn) where
  -- Any two amounts of fuel above the buffer's length give the same run.
  pub run_fuel : (f g : ℕ) (b : Bytes) → length b < f → length b < g → run turn f b ≡ run turn g b
  run_fuel zero g b h k = absurd (omega arith)
  run_fuel (suc f) zero b h k = absurd (omega arith)
  run_fuel (suc f) (suc g) b h k = elim (Turn-cases (turn b)) [
    | inl e ↦ run_wait turn (suc f) b e ∙ sym (run_wait turn (suc g) b e)
    | inr (inl (x, e)) ↦ run_fail turn f b x e ∙ sym (run_fail turn g b x e)
    | inr (inr (es, r, e)) ↦
        let s = inc.shrinks b es r e in
        run_next turn f b es r e
        ∙ ap (λ (p : List E × Bytes). (es ++ p.0, p.1)) (run_fuel f g r (omega arith) (omega arith))
        ∙ sym (run_next turn g b es r e)
  ]

  -- With enough fuel the loop ends by its own test, never by running out.
  pub run_settles :
      (f : ℕ) (b : Bytes) (es : List E) (r : Bytes)
      → length b < f
      → turn (run turn f b).1 ≢ next es r
  run_settles zero b es r h = absurd (omega arith)
  run_settles (suc f) b es r h = elim (Turn-cases (turn b)) [
    | inl e ↦ rw (run_wait turn (suc f) b e) (λ p. cc)
    | inr (inl (x, e)) ↦ rw (run_fail turn f b x e) (λ p. cc)
    | inr (inr (es', r', e)) ↦
        let s = inc.shrinks b es' r' e in
        rw (run_next turn f b es' r' e) (run_settles f r' es r (omega arith))
  ]

  -- A run over `a` that ended waiting, continued when `c` has arrived, is the run over both.
  pub run-append :
      (f g h : ℕ) (a c : Bytes)
      → length a < f
      → length (a ++ c) < g
      → length ((run turn f a).1 ++ c) < h
      → turn (run turn f a).1 ≡ wait
      → run turn g (a ++ c) ≡ (
        (run turn f a).0 ++ (run turn h ((run turn f a).1 ++ c)).0,
        (run turn h ((run turn f a).1 ++ c)).1,
      )
  run-append zero g h a c p q k w = absurd (omega arith)
  run-append (suc f) zero h a c p q k w = absurd (omega arith)
  run-append (suc f) (suc g) h a c p q k w = elim (Turn-cases (turn a)) [
    | inl e ↦
        let k' : length (a ++ c) < h = rw (run_wait turn (suc f) a e) at k in
        rw (run_wait turn (suc f) a e) (run_fuel (suc g) h (a ++ c) q k')
    | inr (inl (x, e)) ↦
        let w' : turn a ≡ wait = rw (run_fail turn f a x e) at w in absurd (cc (sym e ∙ w'))
    | inr (inr (es, r, e)) ↦
        let e1 = run_next turn f a es r e in
        let k' : length ((run turn f r).1 ++ c) < h = rw e1 at k in
        let w' : turn (run turn f r).1 ≡ wait = rw e1 at w in
        let s = inc.shrinks a es r e in
        let s' = inc.shrinks (a ++ c) es (r ++ c) (inc.stable a c es r e) in
        let ih = run-append f g h r c (omega arith) (omega arith) k' w' in
        rw e1 (
          run_next turn g (a ++ c) es (r ++ c) (inc.stable a c es r e)
          ∙ ap (λ (p : List E × Bytes). (es ++ p.0, p.1)) ih
          ∙ ap (λ (l : List E). (l, (run turn h ((run turn f r).1 ++ c)).1))
              (sym (append_assoc es (run turn f r).0 _)))
  ]

  -- The same for `decode`: reading `a ++ c` at once reports what reading `a` and then `c` does,
  -- and leaves the same bytes.
  pub decode-append :
      (a c : Bytes)
      → turn (decode turn a).1 ≡ wait
      → decode turn (a ++ c) ≡ (
        (decode turn a).0 ++ (decode turn ((decode turn a).1 ++ c)).0,
        (decode turn ((decode turn a).1 ++ c)).1,
      )
  unfolding decode
  decode-append a c w =
      let left = (run turn (suc (length a)) a).1 in
      run-append (suc (length a)) (suc (length (a ++ c))) (suc (length (left ++ c))) a c
        (omega arith) (omega arith) (omega arith) w

  pub decode_settles : (b : Bytes) (es : List E) (r : Bytes) → turn (decode turn b).1 ≢ next es r
  unfolding decode
  decode_settles b es r = run_settles (suc (length b)) b es r (omega arith)

  -- One message in front.
  pub decode-next :
      (b : Bytes) (es : List E) (r : Bytes)
      → turn b ≡ next es r
      → decode turn b ≡ (es ++ (decode turn r).0, (decode turn r).1)
  unfolding decode
  decode-next b es r e =
      let s = inc.shrinks b es r e in
      run_next turn (length b) b es r e
      ∙ ap (λ (p : List E × Bytes). (es ++ p.0, p.1))
          (run_fuel (length b) (suc (length r)) r s (omega arith))

module _ {E : Type 0} (turn : Bytes → Turn E) where
  pub decode_wait : (b : Bytes) → turn b ≡ wait → decode turn b ≡ ([], b)
  unfolding decode
  decode_wait b e = run_wait turn (suc (length b)) b e

  pub decode_fail : (b : Bytes) (x : E) → turn b ≡ fail x → decode turn b ≡ (x ∷ [], b)
  unfolding decode
  decode_fail b x e = run_fail turn (length b) b x e
