-- ===== src/SubPub/Publishing.antt =====
-- What a publication in examples/subpub.cc sends, and to whom.
use serverlite.Base.{
  ℕ, ◌+◌, ◌≤◌, ◌≡◌, refl, ap, ◌∙◌, arith, ◌&&◌, some, List, [], ◌∷◌, ◌++◌, Bytes, codes, length,
  map, bytes_eq, ◌==◌, Bool-cases, Option-cases, inl, inr, length-append,
}
use serverlite.SubPub.{Hub, listeners, publish, line_to}
use serverlite.SubPub.Topics.{ind, count, occurs, bytes_eq_refl}
use serverlite.SubPub.Covering.{hub_of}
use serverlite.SubPub.Events.{reads, handle, handle_all}
use serverlite.SubPub.Text.{IsPlain, IsPlain-IsLine, IsLine, IsLine-append}
use serverlite.SubPub.Delivery.{Exact, IsTopic, Request, event_of}
use serverlite.SubPub.Sessions.{AllFair, fair_all, read_line, pub-IsLine, on_data_pub}

-- How often a line went to a connection.
abbrev pub deliveries : ℕ → Bytes → List (ℕ × Bytes) → ℕ
deliveries d line [] = 0
deliveries d line ((c, s) ∷ sent) = ind (c == d && bytes_eq s line) + deliveries d line sent

deliveries-append :
    (d : ℕ) (line : Bytes) (a b : List (ℕ × Bytes))
    → deliveries d line (a ++ b) ≡ deliveries d line a + deliveries d line b
deliveries-append d line [] b = omega arith
deliveries-append d line (x ∷ a) b = omega (arith, deliveries-append d line a b)

deliveries-map :
    (d : ℕ) (line : Bytes) (l : List ℕ) → deliveries d line (map (λ c. (c, line)) l) ≡ count d l
deliveries-map d line [] = refl
deliveries-map d line (c ∷ l) = elim (Bool-cases (c == d)) [
  | inl same ↦ rw (same, bytes_eq_refl line, deliveries-map d line l)
  | inr other ↦ rw (other, deliveries-map d line l)
]

publish-deliveries :
    (t content : Bytes) (h : Hub) (d : ℕ)
    → deliveries d (line_to t content) (hub_of (publish t content h)).sent
      ≡ deliveries d (line_to t content) h.sent + count d (listeners h t)
unfolding publish
publish-deliveries t content h d = elim (Option-cases (h.conns t)) [
  | inl nobody ↦
      let none_listed : listeners h t ≡ [] = rw (nobody, listeners) in
      let p = ap (count d) none_listed in rw nobody (omega (arith, p))
  | inr (l, there) ↦
      let listed : listeners h t ≡ l = rw (there, listeners) in
      let p = ap (count d) listed in
      rw there (
        deliveries-append d (line_to t content) h.sent (map (λ c. (c, line_to t content)) l)
        ∙ omega (arith, p, deliveries-map d (line_to t content) l))
]

-- A publication as a client writes it.
abbrev pub publication : Bytes → Bytes → Bytes
publication t content = codes "pub:" ++ (t ++ 32 ∷ content)

publication-IsLine :
    (t content : Bytes) → IsPlain t → IsPlain content → IsLine (publication t content)
publication-IsLine t content p q = IsLine-append (codes "pub:") (t ++ 32 ∷ content) pub-IsLine (
    IsLine-append t (32 ∷ content) (IsPlain-IsLine t p)
      (((λ e. cc), (λ e. cc)), IsPlain-IsLine content q))

read_publication :
    (c : ℕ) (t content : Bytes) (h : Hub)
    → IsTopic t
    → IsPlain content
    → length t + length content ≤ 95
    → handle (reads c (publication t content ++ 13 ∷ 10 ∷ [])) h
      ≡ some (hub_of (publish t content h))
read_publication c t content h (plain, some_text, short) q fits =
    let total = length-append t (32 ∷ content) in
    read_line c (publication t content) h (publication-IsLine t content plain q)
      (omega (arith, total)) (omega (arith, total))
    ∙ rw (on_data_pub c t content h plain q)

-- Clients that subscribe only to topics that they do not hold, unsubscribe only from ones that they
-- hold, and go, on a server where each connection is listed for a topic as often as it holds it: no
-- callback fails. A publication that then fits into a line sends it to every connection as often as
-- that holds the topic, and to no other.
pub session_publishes :
    (rs : List Request) (h : Hub) (c : ℕ) (t content : Bytes)
    → Exact h
    → AllFair rs h
    → IsTopic t
    → IsPlain content
    → length t + length content ≤ 95
    → (h' : Hub) × (h'' : Hub) × (handle_all (map event_of rs) h ≡ some h')
      × (handle (reads c (publication t content ++ 13 ∷ 10 ∷ [])) h' ≡ some h'')
      × ((d : ℕ)
          → deliveries d (line_to t content) h''.sent
            ≡ deliveries d (line_to t content) h'.sent + occurs t (h'.topics d))
session_publishes rs h c t content v fair topic plain fits =
    let (h', ran, v') = fair_all rs h v fair in
    (
      h',
      hub_of (publish t content h'),
      ran,
      read_publication c t content h' topic plain fits,
      λ d. omega (arith, publish-deliveries t content h' d, v' d t),
    )
