-- ===== src/SubPub/Covering.antt =====
-- Every topic that a connection of examples/subpub.cc holds while it is up, it is listed for.
use serverlite.Base.{
  ℕ, ◌+◌, ◌≤◌, ◌≡◌, refl, ap, subst, ◌∙◌, arith, Bool, true, false, some, List, [], ◌∷◌, ◌++◌,
  Bytes, bytes_eq, bytes_eq_iff, if◌then◌else◌, ◌==◌, ==_iff, Bool-cases, Option-cases, some_inj,
  inl, inr,
}
use serverlite.SubPub.{
  Hub, listeners, set_listeners, set_topics, erase_topic, erase_conn, subscribe, Next, goes_on,
  returns, unsubscribe,
}
use serverlite.SubPub.Topics.{
  ind, count, occurs, listeners-set, count-append, erase_conn-count, occurs-insert, occurs-erase,
}

-- For the connections that `up` tells.
abbrev pub Covers : (ℕ → Bool) → Hub → Type 0
Covers up h = (c : ℕ) (t : Bytes) → up c ≡ true → occurs t (h.topics c) ≤ count c (listeners h t)

abbrev pub hub_of : Next → Hub
hub_of (goes_on h) = h
hub_of (returns h) = h

count_if :
    (b : Bool) (d : ℕ) (l m : List ℕ)
    → count d (if b then l else m) ≡ (if b then count d l else count d m)
count_if true d l m = refl
count_if false d l m = refl

listed-set :
    (t u : Bytes) (l : List ℕ) (h : Hub) (d : ℕ)
    → count d (listeners (set_listeners t l h) u)
      ≡ (if bytes_eq t u then count d l else count d (listeners h u))
listed-set t u l h d = rw (listeners-set t l h u) (count_if (bytes_eq t u) d l (listeners h u))

listed_same :
    (t u : Bytes) (h : Hub) (d : ℕ)
    → bytes_eq t u ≡ true
    → count d (listeners h t) ≡ count d (listeners h u)
listed_same t u h d e = ap (λ v. count d (listeners h v)) ((bytes_eq_iff t u).0 e)

-- What a connection's set and the vectors hold after "sub" and "unsub", by how often.
pub subscribe-listed :
    (c : ℕ) (t : Bytes) (h : Hub) (d : ℕ) (u : Bytes)
    → count d (listeners (subscribe c t h) u)
      ≡ count d (listeners h u) + (if bytes_eq t u then ind (c == d) else 0)
unfolding subscribe
subscribe-listed c t h d u = elim (Bool-cases (bytes_eq t u)) [
  | inl this ↦
      let set = rw this at (listed-set t u (listeners h t ++ c ∷ []) h d) in
      rw this (omega (arith, set, count-append d c (listeners h t), listed_same t u h d this))
  | inr that ↦
      let set = rw that at (listed-set t u (listeners h t ++ c ∷ []) h d) in
      rw that (omega (arith, set))
]

subscribe-held :
    (c : ℕ) (t : Bytes) (h : Hub) (d : ℕ) (u : Bytes)
    → occurs u ((subscribe c t h).topics d)
      ≤ occurs u (h.topics d) + (if bytes_eq t u then ind (c == d) else 0)
unfolding subscribe
subscribe-held c t h d u = elim (Bool-cases (c == d)) [
  | inl same ↦
      let p = ap (λ x. occurs u (h.topics x)) ((==_iff c d).0 same) in
      rw same (omega (arith, p, occurs-insert t u (h.topics c)))
  | inr other ↦ rw other (omega arith)
]

pub erased-listed :
    (c : ℕ) (t : Bytes) (h : Hub) (l : List ℕ) (d : ℕ) (u : Bytes)
    → erase_conn c (listeners h t) ≡ some l
    → count d (listeners (set_listeners t l h) u) + (if bytes_eq t u then ind (c == d) else 0)
      ≡ count d (listeners h u)
erased-listed c t h l d u e =
    let set = listed-set t u l h d in
    let erased = erase_conn-count c (listeners h t) l e d in
    elim (Bool-cases (bytes_eq t u)) [
      | inl this ↦
          let q = listed_same t u h d this in
          let set' = rw this at set in rw this (omega (arith, set', erased, q))
      | inr that ↦ let set' = rw that at set in rw that (omega (arith, set'))
    ]

pub unsubscribed-listed :
    (c : ℕ) (t : Bytes) (h : Hub) (l l' : List ℕ) (d : ℕ) (u : Bytes)
    → h.conns t ≡ some l
    → erase_conn c l ≡ some l'
    → count d (listeners (set_listeners t l' h) u) + (if bytes_eq t u then ind (c == d) else 0)
      ≡ count d (listeners h u)
unsubscribed-listed c t h l l' d u there e =
    let listed : listeners h t ≡ l = rw (there, listeners) in
    erased-listed c t h l' d u (ap (erase_conn c) listed ∙ e)

pub unsubscribed-held :
    (c : ℕ) (t : Bytes) (h : Hub) (d : ℕ) (u : Bytes)
    → occurs u ((set_topics c (erase_topic t (h.topics c)) h).topics d) ≡ (
        if c == d
        then (if bytes_eq t u then 0 else occurs u (h.topics d))
        else occurs u (h.topics d))
unsubscribed-held c t h d u = elim (Bool-cases (c == d)) [
  | inl same ↦
      let p = ap (λ x. if bytes_eq t u then 0 else occurs u (h.topics x)) ((==_iff c d).0 same) in
      rw same (occurs-erase t u (h.topics c) ∙ p)
  | inr other ↦ rw other
]

pub subscribe-Covers :
    {up : ℕ → Bool} (c : ℕ) (t : Bytes) (h : Hub) → Covers up h → Covers up (subscribe c t h)
subscribe-Covers c t h v d u k =
    let old = v d u k in omega (arith, old, subscribe-held c t h d u, subscribe-listed c t h d u)

unsubscribed-Covers :
    {up : ℕ → Bool} (c : ℕ) (t : Bytes) (h : Hub) (l l' : List ℕ)
    → Covers up h
    → h.conns t ≡ some l
    → erase_conn c l ≡ some l'
    → Covers up (set_listeners t l' (set_topics c (erase_topic t (h.topics c)) h))
unsubscribed-Covers c t h l l' v there e d u k =
    let old = v d u k in
    let listed = unsubscribed-listed c t h l l' d u there e in
    let held = unsubscribed-held c t h d u in ground (arith, old, listed, held)

pub unsubscribe-Covers :
    {up : ℕ → Bool} (c : ℕ) (t : Bytes) (h : Hub) (n : Next)
    → Covers up h
    → unsubscribe c t h ≡ some n
    → Covers up (hub_of n)
unfolding unsubscribe
unsubscribe-Covers {up} c t h n v e = elim (Option-cases (h.conns t)) [
  | inl nobody ↦
      let same = some_inj _ n (rw nobody at e) in
      subst (λ m. Covers up (hub_of m)) same
        (λ d u k.
          let old = v d u k in let held = unsubscribed-held c t h d u in ground (arith, old, held))
  | inr (l, there) ↦ elim (Option-cases (erase_conn c l)) [
    | inl failed ↦ absurd (cc (rw (there, failed) at e))
    | inr (l', q) ↦
        let same = some_inj _ n (rw (there, q) at e) in
        subst (λ m. Covers up (hub_of m)) same (unsubscribed-Covers c t h l l' v there q)
  ]
]
