-- ===== src/SubPub/Topics.antt =====
-- Who listens to what in examples/subpub.cc: the vectors in conns against the sets of topics in the
-- contexts of the connections.
use serverlite.Base.{
  ℕ, ◌+◌, ◌≤◌, ◌≡◌, refl, sym, ap, arith, Bool, true, false, some, List, [], ◌∷◌, ◌++◌, Bytes,
  bytes_eq, bytes_eq_iff, if◌then◌else◌, ◌==◌, ==_iff, Bool-cases, Option-cases, some_inj, inl, inr,
}
use serverlite.SubPub.{Hub, listeners, set_listeners, insert_topic, erase_topic, erase_conn}

abbrev pub ind : Bool → ℕ
ind b = if b then 1 else 0

-- How often a connection stands in a vector, and a topic in a set.
abbrev pub count : ℕ → List ℕ → ℕ
count c [] = 0
count c (d ∷ ds) = ind (d == c) + count c ds

abbrev pub occurs : Bytes → List Bytes → ℕ
occurs t [] = 0
occurs t (u ∷ us) = ind (bytes_eq u t) + occurs t us

pub bytes_eq_refl : (a : Bytes) → bytes_eq a a ≡ true
bytes_eq_refl a = (bytes_eq_iff a a).1 refl

pub listeners-set :
    (t : Bytes) (l : List ℕ) (h : Hub) (u : Bytes)
    → listeners (set_listeners t l h) u ≡ (if bytes_eq t u then l else listeners h u)
listeners-set t l h u = ground arith

pub count-append : (c d : ℕ) (l : List ℕ) → count c (l ++ d ∷ []) ≡ count c l + ind (d == c)
count-append c d [] = ground arith
count-append c d (x ∷ l) = omega (arith, count-append c d l)

-- An erase takes one off the count of its connection and leaves the others.
pub erase_conn-count :
    (c : ℕ) (l l' : List ℕ)
    → erase_conn c l ≡ some l'
    → (d : ℕ) → count d l' + ind (c == d) ≡ count d l
unfolding erase_conn
erase_conn-count c [] l' e d = absurd (cc e)
erase_conn-count c (x ∷ l) l' e d = elim (Bool-cases (x == c)) [
  | inl here ↦
      let p = ap (count d) (some_inj l l' (rw here at e)) in
      let q = ap (λ (y : ℕ). ind (y == d)) ((==_iff x c).0 here) in omega (arith, p, q)
  | inr later ↦ elim (Option-cases (erase_conn c l)) [
    | inl failed ↦ absurd (cc (rw (later, failed) at e))
    | inr (r, q) ↦
        let p = ap (count d) (some_inj (x ∷ r) l' (rw (later, q) at e)) in
        omega (arith, p, erase_conn-count c l r q d)
  ]
]

found_behind :
    (c x : ℕ) (l : List ℕ)
    → (x == c) ≡ false
    → (l' : List ℕ) × (erase_conn c l ≡ some l')
    → (l' : List ℕ) × (erase_conn c (x ∷ l) ≡ some l')
unfolding erase_conn
found_behind c x l later (r, e) = (x ∷ r, rw (later, e))

pub erase_conn_found :
    (c : ℕ) (l : List ℕ) → 1 ≤ count c l → (l' : List ℕ) × (erase_conn c l ≡ some l')
unfolding erase_conn
erase_conn_found c [] h = absurd (omega arith)
erase_conn_found c (x ∷ l) h = elim (Bool-cases (x == c)) [
  | inl here ↦ (l, rw here)
  | inr later ↦
      let h' = rw later at h in found_behind c x l later (erase_conn_found c l (omega (arith, h')))
]

pub occurs-insert :
    (t u : Bytes) (ts : List Bytes)
    → occurs u (insert_topic t ts) ≤ occurs u ts + ind (bytes_eq t u)
occurs-insert t u [] = ground arith
occurs-insert t u (x ∷ ts) = elim (Bool-cases (bytes_eq x t)) [
  | inl here ↦ rw here (omega arith)
  | inr other ↦ rw other (omega (arith, occurs-insert t u ts))
]

if_zero : (b : Bool) (n : ℕ) → (if b then 0 else n) ≡ (if b then 0 else ind b + n)
if_zero true n = refl
if_zero false n = omega arith

pub occurs-erase :
    (t u : Bytes) (ts : List Bytes)
    → occurs u (erase_topic t ts) ≡ (if bytes_eq t u then 0 else occurs u ts)
occurs-erase t u [] = ground arith
occurs-erase t u (x ∷ ts) = elim (Bool-cases (bytes_eq x t)) [
  | inl here ↦
      let same = ap (λ (y : Bytes). bytes_eq y u) ((bytes_eq_iff x t).0 here) in
      rw (here, occurs-erase t u ts, same) (if_zero (bytes_eq t u) (occurs u ts))
  | inr other ↦ elim (Bool-cases (bytes_eq t u)) [
    | inl this ↦
        let same = (bytes_eq_iff t u).0 this in
        let not_here : bytes_eq x u ≡ false = rw (sym same) other in
        rw (other, this, not_here) (omega (arith, (rw this at (occurs-erase t u ts))))
    | inr that ↦ rw (other, that) (omega (arith, (rw that at (occurs-erase t u ts))))
  ]
]
