-- ===== src/Protobuf/Dispatcher/Tests.antt =====
-- Runs of the dispatcher.
use serverlite.Base.{
  if◌then◌else◌, ◌==◌, ◌≡◌, refl, ℕ, Bool, some, none, [], ◌∷◌, map, concat, codes, bytes_eq,
}
use serverlite.Protobuf.Toy.{toy}
use serverlite.Protobuf.Codec.{fill_empty_buffer, on_message}
use serverlite.Protobuf.Codec.Tests.{query, answer, query-IsSendable, answer-IsSendable}
use serverlite.Protobuf.Dispatcher.{by_callback, by_default, make_dispatcher}
use serverlite.Protobuf.Dispatcher.Dispatching.{
  dispatch, register_all, handled, last_for, dispatch-on_message,
}

-- A message of type Q has the descriptor 1, any other 2.
abbrev descriptor : toy.Message → ℕ
descriptor m = if bytes_eq m.0 (codes "Q") then 1 else 2

abbrev casts : ℕ → toy.Message → Bool
casts d m = descriptor m == d

-- The second callback for queries takes the place of the first.
queries :
    map
      (λ m. handled toy descriptor casts (last_for (descriptor m) none ((1, 10) ∷ (1, 11) ∷ [])) m)
      (query ∷ answer ∷ [])
    ≡ by_callback 11 query ∷ by_default answer ∷ []
unfolding bytes_eq
queries = refl

dispatch-on_message_example :
    dispatch toy descriptor casts
      (register_all ((1, 10) ∷ (1, 11) ∷ []) make_dispatcher)
      (on_message toy (concat (map (fill_empty_buffer toy) (query ∷ answer ∷ [])))).0
    ≡ map
        (λ m.
          some (
            handled toy descriptor casts (last_for (descriptor m) none ((1, 10) ∷ (1, 11) ∷ [])) m))
        (query ∷ answer ∷ [])
unfolding bytes_eq
dispatch-on_message_example =
    dispatch-on_message toy descriptor casts ((1, 10) ∷ (1, 11) ∷ []) (query ∷ answer ∷ [])
      (query-IsSendable, (answer-IsSendable, tt)) (refl, (refl, tt))
