-- ===== src/Rpc/Exchange.antt =====
-- A call between two channels of src/slite/protorpc/RpcChannel.cc, from CallMethod to its closure.
use serverlite.Base.{ℕ, ◌≡◌, refl, sym, ap, ◌∙◌, true, Option, some, none, [], ◌∷◌, ◌++◌, Bytes}
use serverlite.Base.Maps.{erase, insert_self, erase_self}
use serverlite.Rpc.{
  ErrorCode, no_error, RpcMessage, OutstandingCall, RpcChannel, request_of, call_method,
  connected_callback, effects_of, error_answer, on_rpc_message, done_callback,
}
use serverlite.Rpc.Calls.{
  Answered, refusal, on_rpc_message-Answered, IsResponse, response_lem, finish_found,
}

-- The client behind CallMethod and its connection, and the request that it sent.
abbrev pub called : Bytes → Bytes → Bytes → ℕ → ℕ → RpcChannel → RpcChannel
called service method request response done c =
    let (c1, m) = call_method service method request response done c in connected_callback true m c1

-- The answer to a request: the error, or what the closure of the service's method sends.
abbrev pub answer_to : Option ErrorCode → Bytes → ℕ → RpcMessage
answer_to (some e) reply id = error_answer id e
answer_to none reply id = record (error_answer id no_error) { response = some reply; error = none }

-- The server once the service's method, if it was called, has run its closure.
abbrev pub served : Option ErrorCode → Bytes → ℕ → RpcChannel → RpcChannel
served (some e) reply id s = s
served none reply id s = done_callback reply id s

answer_to-IsResponse :
    (r : Option ErrorCode) (reply : Bytes) (id : ℕ)
    → IsResponse (answer_to r reply id) × ((answer_to r reply id).id ≡ id)
answer_to-IsResponse none reply id = ((refl, refl), refl)
answer_to-IsResponse (some e) reply id = ((refl, refl), refl)

served_sends :
    (r : Option ErrorCode) (m : RpcMessage) (reply : Bytes) (s s' : RpcChannel)
    → Answered r m s s'
    → (served r reply m.id s').sent ≡ s.sent ++ answer_to r reply m.id ∷ []
unfolding done_callback
served_sends none m reply s s' a = ap (λ xs. xs ++ answer_to none reply m.id ∷ []) a.0
served_sends (some e) m reply s s' a = a.0

-- A call from one channel to another: the client sends the request, the server takes it and sends
-- one answer, the error if it refuses it or else the result of the service's method once that runs
-- its closure; the client takes the answer with no failed assert, the call is completed with what
-- the answer carries, and is outstanding no more.
pub call_method-served :
    (service method request reply : Bytes) (response done : ℕ) (c s : RpcChannel)
    → let m = request_of c.next_id service method request in
      let r = refusal s.services m in
      let a = answer_to r reply c.next_id in
      let c1 = called service method request response done c in
      (c1.sent ≡ c.sent ++ m ∷ [])
      × ((s' : RpcChannel) × (c' : RpcChannel) × (on_rpc_message true m s ≡ some s')
          × ((served r reply c.next_id s').sent ≡ s.sent ++ a ∷ [])
          × (on_rpc_message true a c1 ≡ some c')
          × (c'.effects
              ≡ c.effects ++ effects_of (record { response = response; done = done }) a.response)
          × (c'.outstandings c.next_id ≡ none))
unfolding call_method
call_method-served service method request reply response done c s =
    let m = request_of c.next_id service method request in
    let r = refusal s.services m in
    let a = answer_to r reply c.next_id in
    let c1 = called service method request response done c in
    let out : OutstandingCall = record { response = response; done = done } in
    let (s', took, answered, alone) = on_rpc_message-Answered m s refl in
    let (is, same) = answer_to-IsResponse r reply c.next_id in
    let found : c1.outstandings a.id ≡ some out =
      ap c1.outstandings same ∙ insert_self c.outstandings c.next_id out in
    (
      refl,
      (
        s',
        record c1 {
          outstandings = erase c1.outstandings a.id;
          effects = c1.effects ++ effects_of out a.response;
        },
        took,
        served_sends r m reply s s' answered,
        response_lem a c1 is ∙ ap some (finish_found out a c1 found),
        refl,
        ap (erase c1.outstandings a.id) (sym same) ∙ erase_self c1.outstandings a.id,
      ),
    )
