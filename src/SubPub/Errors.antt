-- ===== src/SubPub/Errors.antt =====
-- Two requests that examples/subpub.cc does not expect.
use serverlite.Base.{
  ℕ, ◌+◌, ◌≤◌, ◌≡◌, refl, ◌∙◌, arith, true, false, some, none, List, [], ◌∷◌, Bytes, bytes_eq,
  if◌then◌else◌, ◌==◌, ==_refl, Bool-cases, inl, inr,
}
use serverlite.Base.Options.{◌>>=◌}
use serverlite.SubPub.{
  Hub, listeners, erase_conn, insert_topic, subscribe, unsubscribe, on_server_connection,
}
use serverlite.SubPub.Topics.{count, occurs, bytes_eq_refl}
use serverlite.SubPub.Covering.{Covers, subscribe-Covers, subscribe-listed}
use serverlite.SubPub.Events.{handle, handle_all, leave_works}
use serverlite.SubPub.Delivery.{IsTopic, subscribe_fresh-held, event_of, sub, unsub}
use serverlite.SubPub.Sessions.{read_sub, read_unsub}

erase_conn_missing : (c : ℕ) (l : List ℕ) → count c l ≡ 0 → erase_conn c l ≡ none
unfolding erase_conn
erase_conn_missing c [] e = refl
erase_conn_missing c (d ∷ l) e = elim (Bool-cases (d == c)) [
  | inl here ↦ absurd (let e' = rw here at e in omega (arith, e'))
  | inr other ↦ let e' = rw other at e in rw (other, erase_conn_missing c l (omega (arith, e')))
]

-- A connection that asks to leave a topic that it is not listed for, but that has an entry in conns,
-- makes the server erase at end().
unsub_unknown :
    (c : ℕ) (t : Bytes) (l : List ℕ) (h : Hub)
    → IsTopic t
    → h.conns t ≡ some l
    → count c l ≡ 0
    → handle (event_of (unsub c t)) h ≡ none
unfolding unsubscribe
unsub_unknown c t l h topic there missing =
    read_unsub c t h topic ∙ rw (there, erase_conn_missing c l missing)

insert_present : (t : Bytes) (ts : List Bytes) → 1 ≤ occurs t ts → insert_topic t ts ≡ ts
insert_present t [] e = absurd (omega arith)
insert_present t (u ∷ ts) e = elim (Bool-cases (bytes_eq u t)) [
  | inl here ↦ rw here
  | inr other ↦ let e' = rw other at e in rw (other, insert_present t ts (omega (arith, e')))
]

subscribe_again-held :
    (c : ℕ) (t : Bytes) (h : Hub)
    → 1 ≤ occurs t (h.topics c)
    → occurs t ((subscribe c t h).topics c) ≡ occurs t (h.topics c)
unfolding subscribe
subscribe_again-held c t h held = rw (==_refl c, insert_present t (h.topics c) held)

-- A connection that subscribes twice to a topic that it is not listed for, and goes, is listed for it
-- still, if every topic that any connection holds it is listed for.
double_sub_stale :
    (c : ℕ) (t : Bytes) (h : Hub)
    → IsTopic t
    → Covers (λ d. true) h
    → count c (listeners h t) ≡ 0
    → (h' : Hub) × ((handle_all (event_of (sub c t) ∷ event_of (sub c t) ∷ []) h
          >>= on_server_connection false c)
        ≡ some h')
      × (count c (listeners h' t) ≡ 1)
unfolding handle_all on_server_connection
double_sub_stale c t h topic v missing =
    let h1 = subscribe c t h in
    let h2 = subscribe c t h1 in
    let v2 = subscribe-Covers c t h1 (subscribe-Covers c t h v) in
    let (h3, left, (same, counts)) = leave_works c (h2.topics c) h2 (λ u. v2 c u refl) in
    (
      h3,
      rw (read_sub c t h topic, read_sub c t h1 topic) left,
      one_left c t h h3 (v c t refl) missing (counts c t),
    )
  where
    one_left :
        (c : ℕ) (t : Bytes) (h h3 : Hub)
        → occurs t (h.topics c) ≤ count c (listeners h t)
        → count c (listeners h t) ≡ 0
        → count c (listeners h3 t)
            + (if c == c then occurs t ((subscribe c t (subscribe c t h)).topics c) else 0)
          ≡ count c (listeners (subscribe c t (subscribe c t h)) t)
        → count c (listeners h3 t) ≡ 1
    one_left c t h h3 v missing counts =
        let h1 = subscribe c t h in
        let self = ==_refl c in
        let topic = bytes_eq_refl t in
        let once = rw (self, topic) at (subscribe_fresh-held c t h c t (omega arith)) in
        let listed = rw (self, topic) at (subscribe-listed c t h c t) in
        let twice = rw (self, topic) at (subscribe-listed c t h1 c t) in
        let still = subscribe_again-held c t h1 (omega (arith, once)) in
        let end = rw self at counts in omega (arith, once, listed, twice, still, end, missing, v)
