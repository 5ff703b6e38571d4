-- ===== src/MemoryDb/Lines.antt =====
-- The parser of examples/memdb.cc, line by line: its fuel, streams cut into reads, and lines that it
-- refuses.
use serverlite.Base.{
  ℕ, zero, suc, ◌<◌, ◌≡◌, ◌≢◌, refl, ap, ◌∙◌, arith, true, false, ◌&&◌, Option, some, none, ◌++◌,
  Bytes, length, ◌==◌, Bool-cases, Option-cases, inl, inr, ◌⊎◌,
}
use serverlite.Base.Text.{split_crlf, split_crlf_shorter, split_crlf-append}
use serverlite.Base.Words.{ℤ}
use serverlite.MemoryDb.{
  Context, Parsed, threw, refused, kept, Outcome, throws, returns, parse_line, parse_loop, parse,
  is_zero, front, kept_by,
}

Parsed-cases :
    (p : Parsed) → (p ≡ threw) ⊎ ((c : Context) × (p ≡ refused c)) ⊎ ((c : Context) × (p ≡ kept c))
Parsed-cases threw = inl refl
Parsed-cases (refused c) = inr (inl (c, refl))
Parsed-cases (kept c) = inr (inr (c, refl))

-- Any two amounts of fuel above the buffer's length give the same result.
parse_loop_fuel :
    (f g : ℕ) (buf : Bytes) (c : Context)
    → length buf < f
    → length buf < g
    → parse_loop f buf c ≡ parse_loop g buf c
unfolding parse_loop
parse_loop_fuel zero g buf c h k = absurd (omega arith)
parse_loop_fuel (suc f) zero buf c h k = absurd (omega arith)
parse_loop_fuel (suc f) (suc g) buf c h k = elim (Option-cases (split_crlf buf)) [
  | inl e ↦ rw (e, parse_loop)
  | inr ((line, rest), e) ↦ elim (Parsed-cases (parse_line line c)) [
    | inl p ↦ rw (e, p, parse_loop)
    | inr (inl (c', p)) ↦ rw (e, p, parse_loop)
    | inr (inr (c', p)) ↦
        let shorter = split_crlf_shorter buf line rest e in
        rw (e, p, parse_loop) (parse_loop_fuel f g rest c' (omega arith) (omega arith))
  ]
]

pub parse_waits :
    (buf : Bytes) (c : Context) → split_crlf buf ≡ none → parse buf c ≡ returns true buf c
unfolding parse parse_loop
parse_waits buf c e = rw (e, parse_loop)

pub parse_kept :
    (buf line rest : Bytes) (c c' : Context)
    → split_crlf buf ≡ some (line, rest)
    → parse_line line c ≡ kept c'
    → parse buf c ≡ parse rest c'
unfolding parse parse_loop
parse_kept buf line rest c c' e p =
    let shorter = split_crlf_shorter buf line rest e in
    rw (e, p, parse_loop)
      (parse_loop_fuel (length buf) (suc (length rest)) rest c' (omega arith) (omega arith))

parse_threw :
    (buf line rest : Bytes) (c : Context)
    → split_crlf buf ≡ some (line, rest)
    → parse_line line c ≡ threw
    → parse buf c ≡ throws
unfolding parse parse_loop
parse_threw buf line rest c e p = rw (e, p, parse_loop)

parse_refused :
    (buf line rest : Bytes) (c c' : Context)
    → split_crlf buf ≡ some (line, rest)
    → parse_line line c ≡ refused c'
    → parse buf c ≡ returns false buf c'
unfolding parse parse_loop
parse_refused buf line rest c c' e p = rw (e, p, parse_loop)

-- Induction along a call of parse: the buffer runs out of lines, a line throws or is refused, or a
-- line is kept and the call goes on behind it.
module _ {P : Bytes → Context → Outcome → Type 0}
    (waits : (buf : Bytes) (c : Context) → split_crlf buf ≡ none → P buf c (returns true buf c))
    (throwing : (buf : Bytes) (c : Context) → P buf c throws)
    (refusing : (buf line rest : Bytes) (c c' : Context)
      → split_crlf buf ≡ some (line, rest)
      → parse_line line c ≡ refused c'
      → P buf c (returns false buf c'))
    (going_on : (buf line rest : Bytes) (c c' : Context) (o : Outcome)
      → split_crlf buf ≡ some (line, rest)
      → parse_line line c ≡ kept c'
      → P rest c' o
      → P buf c o) where
  along_on : (f : ℕ) (buf : Bytes) (c : Context) → length buf < f → P buf c (parse buf c)
  along_on zero buf c h = absurd (omega arith)
  along_on (suc f) buf c h = elim (Option-cases (split_crlf buf)) [
    | inl e ↦ rw (parse_waits buf c e) (waits buf c e)
    | inr ((line, rest), e) ↦ elim (Parsed-cases (parse_line line c)) [
      | inl p ↦ rw (parse_threw buf line rest c e p) (throwing buf c)
      | inr (inl (c', p)) ↦
          rw (parse_refused buf line rest c c' e p) (refusing buf line rest c c' e p)
      | inr (inr (c', p)) ↦
          let shorter = split_crlf_shorter buf line rest e in
          rw (parse_kept buf line rest c c' e p)
            (going_on buf line rest c c' (parse rest c') e p (along_on f rest c' (omega arith)))
    ]
  ]

  pub along : (buf : Bytes) (c : Context) → P buf c (parse buf c)
  along buf c = along_on (suc (length buf)) buf c (omega arith)

-- What a call that returns true says of the same call with more bytes.
abbrev Resumes : Bytes → Context → Outcome → Type 0
Resumes buf c (returns true left c') =
    (more : Bytes) → parse (buf ++ more) c ≡ parse (left ++ more) c'
Resumes buf c o = Unit

Resumes-behind :
    (buf line rest : Bytes) (c c' : Context) (o : Outcome)
    → split_crlf buf ≡ some (line, rest)
    → parse_line line c ≡ kept c'
    → Resumes rest c' o
    → Resumes buf c o
Resumes-behind buf line rest c c' throws e p r = tt
Resumes-behind buf line rest c c' (returns false left d) e p r = tt
Resumes-behind buf line rest c c' (returns true left d) e p r = λ more.
    parse_kept (buf ++ more) line (rest ++ more) c c' (split_crlf-append buf more line rest e) p
    ∙ r more

-- However a request is cut into reads: where parse returns true on the first of them, a second call
-- on what it left, with the new bytes behind it and the context that it left, does what one call on
-- the whole does.
pub parse-append :
    (buf left more : Bytes) (c c' : Context)
    → parse buf c ≡ returns true left c'
    → parse (buf ++ more) c ≡ parse (left ++ more) c'
parse-append buf left more c c' e =
    let r =
      along {P = Resumes} (λ b d w more. refl) (λ b d. tt) (λ b l r d d' w p. tt) Resumes-behind buf
        c in
    (rw e at r) more

kept_by_keeps : (f : ℤ → Context) (o : Option ℤ) (c : Context) → kept_by f o ≢ refused c
kept_by_keeps f none c e = cc
kept_by_keeps f (some n) c e = cc

refused_context :
    (line : Bytes) (c c' : Context) → parse_line line c ≡ refused c' → c' ≡ record c { state = 1 }
unfolding parse_line
refused_context line c c' e = elim (Bool-cases (is_zero c.count && front line == 42)) [
  | inl new ↦ absurd (kept_by_keeps _ _ c' (rw new at e))
  | inr old ↦ elim (Bool-cases (c.length == 0 && front line == 36)) [
    | inl size ↦ absurd (kept_by_keeps _ _ c' (rw (old, size) at e))
    | inr word ↦ let e' = rw (old, word) at e in ground (arith, e')
  ]
]

pub refused_again :
    (line : Bytes) (c c' : Context)
    → parse_line line c ≡ refused c'
    → (parse_line line c' ≡ refused c') × (c'.state ≡ 1)
unfolding parse_line
refused_again line c c' e =
    let same = refused_context line c c' e in
    (ap (parse_line line) same ∙ e, ap (λ (d : Context). d.state) same)

abbrev Sticks : Outcome → Type 0
Sticks (returns false left c') =
    (c'.state ≡ 1) × ((more : Bytes) → parse (left ++ more) c' ≡ returns false (left ++ more) c')
Sticks o = Unit

Sticks-refused :
    (buf line rest : Bytes) (c c' : Context)
    → split_crlf buf ≡ some (line, rest)
    → parse_line line c ≡ refused c'
    → Sticks (returns false buf c')
Sticks-refused buf line rest c c' e p =
    let again = refused_again line c c' p in
    (
      again.1,
      λ more.
          parse_refused (buf ++ more) line (rest ++ more) c' c'
            (split_crlf-append buf more line rest e) again.0,
    )

-- Once parse returns false, because a word has another length than the one announced, every later
-- call on what it left returns false, whatever bytes come, and leaves the context in state 1.
pub refused_for_good :
    (buf left more : Bytes) (c c' : Context)
    → parse buf c ≡ returns false left c'
    → (parse (left ++ more) c' ≡ returns false (left ++ more) c') × (c'.state ≡ 1)
refused_for_good buf left more c c' e =
    let r : Sticks (parse buf c) =
      along {P = λ b d o. Sticks o} (λ b d w. tt) (λ b d. tt) Sticks-refused
        (λ b l r d d' o w p s. s) buf c in
    let s = rw e at r in (s.1 more, s.0)
