-- ===== src/Rpc/Tests.antt =====
-- Runs of a channel.
use serverlite.Base.{
  ℕ, ◌≡◌, refl, arith, true, some, none, [], ◌∷◌, ◌++◌, codes, Bytes, bytes_eq, if◌then◌else◌,
}
use serverlite.Rpc.{
  RpcMessage, RpcChannel, Service, request_of, register_service, call_method, on_rpc_message,
  no_method, error_answer, run_done, parse_into, delete,
}
use serverlite.Rpc.Calls.{refusal, receive, call_method_completes}

abbrev pub adder : Service
adder = record {
  find_method = λ n. if bytes_eq n (codes "Add") then some 1 else none;
  parses = λ m b. true;
}

abbrev pub channel : RpcChannel
channel = record {
  next_id = 3;
  outstandings = λ i. none;
  services = some (register_service (codes "Calc") adder (λ n. none));
  sent = [];
  started = [];
  effects = [];
}

-- A request for a method that the service does not have.
abbrev unknown_method : RpcMessage
unknown_method = request_of 9 (codes "Calc") (codes "Sub") (1 ∷ [])

refuses_unknown : refusal channel.services unknown_method ≡ some no_method
unfolding bytes_eq
refuses_unknown = refl

abbrev pub response_with : ℕ → Bytes → RpcMessage
response_with id b = record (error_answer id no_method) { response = some b; error = none }

call_method_completes_example :
    (c2 : RpcChannel) × (c3 : RpcChannel) × (receive
        (response_with 8 [] ∷ [])
        (call_method (codes "Calc") (codes "Add") (1 ∷ []) 70 71 channel).0
      ≡ some c2)
    × (c2.outstandings 3 ≡ some (record { response = 70; done = 71 }))
    × (on_rpc_message true (response_with 3 (2 ∷ [])) c2 ≡ some c3)
    × (c3.effects ≡ c2.effects ++ (parse_into 70 (2 ∷ []) ∷ run_done 71 ∷ delete 70 ∷ []))
    × (c3.outstandings 3 ≡ none)
    × (on_rpc_message true (response_with 3 (2 ∷ [])) c3 ≡ some c3)
call_method_completes_example =
    call_method_completes (codes "Calc") (codes "Add") (1 ∷ []) 70 71 channel
      (response_with 8 [] ∷ []) (response_with 3 (2 ∷ []))
      (((refl, refl), λ e. omega (arith, e)), tt) (refl, refl) refl
