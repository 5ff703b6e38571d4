-- ===== src/SubPub/Delivery.antt =====
-- The requests of a client of examples/subpub.cc that asks for no topic twice, and leaves none that it
-- does not hold.
use serverlite.Base.{
  ℕ, ◌+◌, ◌≤◌, ◌≡◌, sym, ap, ◌∙◌, arith, Bool, true, false, some, List, [], ◌∷◌, ◌++◌, Bytes, codes,
  length, bytes_eq, bytes_eq_iff, if◌then◌else◌, ◌==◌, ==_iff, Bool-cases, Option-cases, inl, inr,
}
use serverlite.Base.Options.{◌>>=◌}
use serverlite.SubPub.{
  Hub, listeners, set_listeners, set_topics, insert_topic, erase_topic, erase_conn, subscribe,
  goes_on, unsubscribe, on_server_connection, forget,
}
use serverlite.SubPub.Topics.{ind, count, occurs, erase_conn_found}
use serverlite.SubPub.Covering.{subscribe-listed, unsubscribed-listed, unsubscribed-held}
use serverlite.SubPub.Events.{Event, goes, reads, leave_works}
use serverlite.SubPub.Text.{IsPlain}

-- A connection is listed for a topic as often as it holds it.
abbrev pub Exact : Hub → Type 0
Exact h = (c : ℕ) (t : Bytes) → count c (listeners h t) ≡ occurs t (h.topics c)

-- A topic as a client writes it.
abbrev pub IsTopic : Bytes → Type 0
IsTopic t = IsPlain t × (1 ≤ length t) × (length t ≤ 90)

pub data Request : Type 0 where
  sub unsub : ℕ → Bytes → Request
  leaves : ℕ → Request

abbrev pub event_of : Request → Event
event_of (sub c t) = reads c (codes "sub:" ++ (t ++ 13 ∷ 10 ∷ []))
event_of (unsub c t) = reads c (codes "unsub:" ++ (t ++ 13 ∷ 10 ∷ []))
event_of (leaves c) = goes c

-- What the request asks of the state that it meets.
abbrev pub IsFair : Request → Hub → Type 0
IsFair (sub c t) h = IsTopic t × (occurs t (h.topics c) ≡ 0)
IsFair (unsub c t) h = IsTopic t × (occurs t (h.topics c) ≡ 1)
IsFair (leaves c) h = Unit

insert_fresh :
    (t u : Bytes) (ts : List Bytes)
    → occurs t ts ≡ 0
    → occurs u (insert_topic t ts) ≡ occurs u ts + ind (bytes_eq t u)
insert_fresh t u [] e = ground arith
insert_fresh t u (x ∷ ts) e = elim (Bool-cases (bytes_eq x t)) [
  | inl here ↦ absurd (omega (arith, (rw here at e)))
  | inr other ↦
      let e' = rw other at e in rw other (omega (arith, insert_fresh t u ts (omega (arith, e'))))
]

pub subscribe_fresh-held :
    (c : ℕ) (t : Bytes) (h : Hub) (d : ℕ) (u : Bytes)
    → occurs t (h.topics c) ≡ 0
    → occurs u ((subscribe c t h).topics d)
      ≡ occurs u (h.topics d) + (if bytes_eq t u then ind (c == d) else 0)
unfolding subscribe
subscribe_fresh-held c t h d u fresh = elim (Bool-cases (c == d)) [
  | inl same ↦
      let p = ap (λ x. occurs u (h.topics x)) ((==_iff c d).0 same) in
      rw same (omega (arith, p, insert_fresh t u (h.topics c) fresh))
  | inr other ↦ rw other (keep (bytes_eq t u) (occurs u (h.topics d)))
]
  where
    keep : (b : Bool) (n : ℕ) → n ≡ n + (if b then 0 else 0)
    keep true n = omega arith
    keep false n = omega arith

pub subscribe-Exact :
    (c : ℕ) (t : Bytes) (h : Hub) → Exact h → occurs t (h.topics c) ≡ 0 → Exact (subscribe c t h)
subscribe-Exact c t h v fresh d u =
    let old = v d u in
    omega (arith, old, subscribe-listed c t h d u, subscribe_fresh-held c t h d u fresh)

held_at :
    (c : ℕ) (t : Bytes) (h : Hub) (d : ℕ) (u : Bytes)
    → occurs t (h.topics c) ≡ 1
    → (if c == d then (if bytes_eq t u then occurs u (h.topics d) else 1) else 1) ≡ 1
held_at c t h d u held = elim (Bool-cases (c == d)) [
  | inr other ↦ rw other
  | inl same ↦ elim (Bool-cases (bytes_eq t u)) [
    | inr that ↦ rw (same, that)
    | inl this ↦
        let p = ap (λ x. occurs u (h.topics x)) ((==_iff c d).0 same) in
        let q = ap (λ x. occurs x (h.topics c)) ((bytes_eq_iff t u).0 this) in
        rw (same, this) (sym p ∙ sym q ∙ held)
  ]
]

left_one-Exact :
    (c : ℕ) (t : Bytes) (h : Hub) (l l' : List ℕ)
    → Exact h
    → occurs t (h.topics c) ≡ 1
    → h.conns t ≡ some l
    → erase_conn c l ≡ some l'
    → Exact (set_listeners t l' (set_topics c (erase_topic t (h.topics c)) h))
left_one-Exact c t h l l' v held there e d u =
    let old = v d u in
    let listed = unsubscribed-listed c t h l l' d u there e in
    let after = unsubscribed-held c t h d u in
    let one = held_at c t h d u held in ground (arith, old, listed, after, one)

-- A held topic can be left: the erase finds the connection.
pub unsubscribe_held :
    (c : ℕ) (t : Bytes) (h : Hub)
    → Exact h
    → occurs t (h.topics c) ≡ 1
    → (h' : Hub) × (unsubscribe c t h ≡ some (goes_on h')) × Exact h'
unfolding unsubscribe
unsubscribe_held c t h v held = elim (Option-cases (h.conns t)) [
  | inl nobody ↦
      let old = v c t in
      let none_listed : listeners h t ≡ [] = rw (nobody, listeners) in
      absurd (omega (arith, old, held, ap (count c) none_listed))
  | inr (l, there) ↦
      let listed : listeners h t ≡ l = rw (there, listeners) in
      let old = v c t in
      let some_listed = ap (count c) listed in
      let (l', e) = erase_conn_found c l (omega (arith, old, held, some_listed)) in
      (
        set_listeners t l' (set_topics c (erase_topic t (h.topics c)) h),
        rw (there, e),
        left_one-Exact c t h l l' v held there e,
      )
]

pub goes-Exact :
    (c : ℕ) (h : Hub)
    → Exact h
    → (h' : Hub) × ((on_server_connection false c h >>= λ g. some (forget c g)) ≡ some h')
      × Exact h'
unfolding on_server_connection
goes-Exact c h v =
    let (h1, ran, (same, counts)) =
      leave_works c (h.topics c) h (λ t. let old = v c t in omega (arith, old)) in
    (
      set_topics c [] h1,
      rw ran,
      λ d u.
          let old = v d u in
          let counted = counts d u in
          let topics = ap (λ (f : ℕ → List Bytes). occurs u (f d)) same in
          let its = its_topics c d u h in ground (arith, old, counted, topics, its),
    )
  where
    its_topics :
        (c d : ℕ) (u : Bytes) (h : Hub)
        → (if c == d then occurs u (h.topics c) else 0)
          ≡ (if c == d then occurs u (h.topics d) else 0)
    its_topics c d u h = elim (Bool-cases (c == d)) [
      | inl same ↦ rw same (ap (λ x. occurs u (h.topics x)) ((==_iff c d).0 same))
      | inr other ↦ rw other
    ]
