-- ===== src/SubPub/Receiving/Tests.antt =====
-- Runs of a subscriber.
use serverlite.Base.{◌≡◌, refl, arith, none, some, [], ◌∷◌, ◌++◌, codes, bytes_eq}
use serverlite.SubPub.Receiving.{on_client_message, returned}
use serverlite.SubPub.Receiving.Counting.{
  IsPublication, lines_of, on_client_message_counts, on_client_message_hangs,
}

foo-IsPublication : IsPublication (codes "foo") (codes "hello")
foo-IsPublication = record {
  plain_topic = omega arith;
  plain_content = omega arith;
  no_colon = omega arith;
  lower = omega arith;
  upper = omega arith;
}

on_client_message_counts_example :
    on_client_message 3
      (lines_of ((codes "foo", codes "hello") ∷ (codes "foo", codes "hello") ∷ []))
      7
    ≡ some (returned (record { buffer = []; errcode = 0; receive_count = 9 }))
unfolding bytes_eq
on_client_message_counts_example =
    on_client_message_counts ((codes "foo", codes "hello") ∷ (codes "foo", codes "hello") ∷ []) 7
      (foo-IsPublication, (foo-IsPublication, tt))

-- "+OK" is too short for a line, and a publication stands behind it.
on_client_message_hangs_example :
    on_client_message 1000 (codes "+OK" ++ 13 ∷ 10 ∷ (codes "foo:hello" ++ 13 ∷ 10 ∷ [])) 0 ≡ none
on_client_message_hangs_example =
    on_client_message_hangs 1000 (codes "+OK") (codes "foo:hello") [] 0 (omega arith) (omega arith)
      refl (omega arith)
