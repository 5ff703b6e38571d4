-- ===== src/SubPub/Tests.antt =====
-- Runs of the server of examples/subpub.cc.
use serverlite.Base.{
  ℕ, ◌+◌, ◌≡◌, refl, arith, true, false, some, none, List, [], ◌∷◌, ◌++◌, Bytes, codes, map,
  bytes_eq,
}
use serverlite.Base.Text.{split_crlf}
use serverlite.SubPub.{Hub, line_to, strip, on_server_connection, on_server_message, get_message}
use serverlite.SubPub.Topics.{occurs}
use serverlite.SubPub.Covering.{Covers}
use serverlite.SubPub.Events.{
  Event, comes, goes, reads, handle, handle_all, Live, set_up, handle_live, handle_all_live,
  handle_all_goes,
}
use serverlite.SubPub.Delivery.{sub, leaves, event_of, IsTopic}
use serverlite.SubPub.Publishing.{deliveries, publication, session_publishes}

abbrev empty : Hub
empty = record { conns = λ t. none; topics = λ c. []; sent = []; closing = [] }

stripped : strip (codes " \r\nfoo bar\n ") ≡ codes "foo bar"
unfolding strip
stripped = refl

abbrev foo : Bytes
foo = codes "foo"

foo-IsTopic : IsTopic foo
foo-IsTopic = (
  (
    ((λ e. cc), (λ e. cc), (λ e. cc)),
    (((λ e. cc), (λ e. cc), (λ e. cc)), (((λ e. cc), (λ e. cc), (λ e. cc)), tt)),
  ),
  omega arith,
  omega arith,
)

-- Two subscribers, one of which subscribes twice, and a publication, then that one goes; a line that
-- is too short is skipped. What is left of the one that went still gets the publication.
abbrev session : List Event
session =
    comes 1
    ∷ reads 1 (codes "sub:foo\r\nx\r\nsub:foo\r\n")
    ∷ comes 2
    ∷ reads 2 (codes "sub:foo\r\n")
    ∷ goes 1
    ∷ comes 3
    ∷ reads 3 (codes "pub:foo hello\r\n")
    ∷ []

abbrev nobody : Live
nobody = record { hub = empty; up = λ c. false }

went :
    (s : Live) × (handle_all_live session nobody ≡ some s)
    × (s.hub.sent ≡ (1, codes "foo:hello\r\n") ∷ (2, codes "foo:hello\r\n") ∷ [])
    × (s.up 2 ≡ true)
unfolding handle_all_live handle_live on_server_connection on_server_message get_message split_crlf
    bytes_eq
went = (_, refl, refl, refl)

handle_all_goes_example :
    (h : Hub) × (on_server_connection false 2 went.0.hub ≡ some h)
    × Covers (set_up 2 false went.0.up) h
handle_all_goes_example =
    handle_all_goes session nobody went.0 2 (λ c t e. omega arith) went.1 went.3

session_publishes_example :
    (h' : Hub) × (h'' : Hub) × (handle_all
        (map event_of (sub 1 foo ∷ sub 2 foo ∷ leaves 1 ∷ []))
        empty
      ≡ some h')
    × (handle (reads 3 (publication foo (codes "hi") ++ 13 ∷ 10 ∷ [])) h' ≡ some h'')
    × ((d : ℕ)
        → deliveries d (line_to foo (codes "hi")) h''.sent
          ≡ deliveries d (line_to foo (codes "hi")) h'.sent + occurs foo (h'.topics d))
unfolding handle_all handle on_server_connection on_server_message get_message split_crlf bytes_eq
session_publishes_example =
    session_publishes (sub 1 foo ∷ sub 2 foo ∷ leaves 1 ∷ []) empty 3 foo (codes "hi") (λ c t. refl)
      ((foo-IsTopic, refl), ((foo-IsTopic, refl), (tt, tt))) foo-IsTopic
      (((λ e. cc), (λ e. cc), (λ e. cc)), (((λ e. cc), (λ e. cc), (λ e. cc)), tt)) (omega arith)
