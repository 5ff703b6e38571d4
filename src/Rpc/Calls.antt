-- ===== src/Rpc/Calls.antt =====
-- Requests and responses that reach RpcChannel::onRpcMessage (src/slite/protorpc/RpcChannel.cc).
use serverlite.Base.{
  ℕ, ◌≡◌, ◌≢◌, refl, sym, ap, ◌∙◌, true, ◌||◌, inl, inr, Option, some, none, List, [], ◌∷◌, ◌++◌,
  Bytes, if◌then◌else◌, Option-cases, Bool-cases,
}
use serverlite.Base.Maps.{erase, insert_self, erase_self, erase_other}
use serverlite.Base.Options.{◌>>=◌}
use serverlite.Rpc.{
  request_type, response_type, ErrorCode, no_service, no_method, invalid_request, RpcMessage,
  Service, OutstandingCall, ServiceCall, RpcChannel, call_method, effects_of, error_answer, is_set,
  on_rpc_message, on_typed, finish, serve, call_service, call_found,
}

-- Why a request is refused.
abbrev pub refusal : Option (Bytes → Option Service) → RpcMessage → Option ErrorCode
refusal none m = some no_service
refusal (some services) m = elim (services m.service) [
  | none ↦ some no_service
  | some s ↦ elim (s.find_method m.method) [
    | none ↦ some no_method
    | some method ↦ if s.parses method m.request then none else some invalid_request
  ]
]

-- What a request does to the channel, by the reason to refuse it.
abbrev pub Answered : Option ErrorCode → RpcMessage → RpcChannel → RpcChannel → Type 0
Answered (some e) m c c' = (c'.sent ≡ c.sent ++ error_answer m.id e ∷ []) × (c'.started ≡ c.started)
Answered none m c c' =
    (c'.sent ≡ c.sent)
    × ((k : ServiceCall) × (k.service ≡ m.service)
        × (k.request ≡ m.request)
        × (k.id ≡ m.id)
        × (c'.started ≡ c.started ++ k ∷ []))

found_Answered :
    (s : Service) (r : Option ℕ) (m : RpcMessage) (c : RpcChannel)
    → Answered
        (elim r [
          | none ↦ some no_method
          | some method ↦ if s.parses method m.request then none else some invalid_request
        ])
        m
        c
        (call_found s r m c)
unfolding call_found
found_Answered s none m c = (refl, refl)
found_Answered s (some method) m c = elim (Bool-cases (s.parses method m.request)) [
  | inl ok ↦ rw ok (
    refl,
    (
      record { service = m.service; method = method; request = m.request; id = m.id },
      refl,
      refl,
      refl,
      refl,
    ),
  )
  | inr bad ↦ rw bad (refl, refl)
]

serve-Answered :
    (services : Option (Bytes → Option Service)) (m : RpcMessage) (c : RpcChannel)
    → Answered (refusal services m) m c (serve services m c)
unfolding serve call_service
serve-Answered none m c = (refl, refl)
serve-Answered (some services) m c = elim (Option-cases (services m.service)) [
  | inl missing ↦ rw missing (refl, refl)
  | inr (s, e) ↦ rw e (found_Answered s (s.find_method m.method) m c)
]

-- What a request leaves alone.
abbrev pub Untouched : RpcChannel → RpcChannel → Type 0
Untouched c c' =
    (c'.outstandings ≡ c.outstandings) × (c'.effects ≡ c.effects) × (c'.next_id ≡ c.next_id)

found_Untouched :
    (s : Service) (r : Option ℕ) (m : RpcMessage) (c : RpcChannel)
    → Untouched c (call_found s r m c)
unfolding call_found
found_Untouched s none m c = (refl, refl, refl)
found_Untouched s (some method) m c = elim (Bool-cases (s.parses method m.request)) [
  | inl ok ↦ rw ok (refl, refl, refl)
  | inr bad ↦ rw bad (refl, refl, refl)
]

pub serve-Untouched :
    (services : Option (Bytes → Option Service)) (m : RpcMessage) (c : RpcChannel)
    → Untouched c (serve services m c)
unfolding serve call_service
serve-Untouched none m c = (refl, refl, refl)
serve-Untouched (some services) m c = elim (Option-cases (services m.service)) [
  | inl missing ↦ rw missing (refl, refl, refl)
  | inr (s, e) ↦ rw e (found_Untouched s (s.find_method m.method) m c)
]

-- A request on the channel's own connection is answered in one of two ways: it is refused at once,
-- with the first of NO_SERVICE, NO_METHOD and INVALID_REQUEST that applies and the id of the request;
-- or the method is called once, with that id, and nothing is sent before its closure runs. The
-- channel's own calls are not touched.
pub on_rpc_message-Answered :
    (m : RpcMessage) (c : RpcChannel)
    → m.type ≡ request_type
    → (c' : RpcChannel) × (on_rpc_message true m c ≡ some c')
      × Answered (refusal c.services m) m c c'
      × Untouched c c'
unfolding on_rpc_message on_typed
on_rpc_message-Answered m c t =
    (serve c.services m c, rw t, serve-Answered c.services m c, serve-Untouched c.services m c)

-- Messages received one after the other.
abbrev pub receive : List RpcMessage → RpcChannel → Option RpcChannel
receive [] c = some c
receive (m ∷ ms) c = on_rpc_message true m c >>= receive ms

-- A response that carries a result or an error.
abbrev pub IsResponse : RpcMessage → Type 0
IsResponse m = (m.type ≡ response_type) × ((is_set m.response || is_set m.error) ≡ true)

abbrev pub AllOther : ℕ → List RpcMessage → Type 0
AllOther id [] = Unit
AllOther id (m ∷ ms) = (IsResponse m × (m.id ≢ id)) × AllOther id ms

pub response_lem :
    (m : RpcMessage) (c : RpcChannel)
    → IsResponse m
    → on_rpc_message true m c ≡ some (finish (c.outstandings m.id) m c)
unfolding on_rpc_message on_typed
response_lem m c h = rw (h.0, h.1)

pub finish_found :
    (out : OutstandingCall) (m : RpcMessage) (c : RpcChannel)
    → c.outstandings m.id ≡ some out
    → finish (c.outstandings m.id) m c ≡ record c {
      outstandings = erase c.outstandings m.id;
      effects = c.effects ++ effects_of out m.response;
    }
unfolding finish
finish_found out m c e = rw e

finish_missing :
    (m : RpcMessage) (c : RpcChannel)
    → c.outstandings m.id ≡ none
    → finish (c.outstandings m.id) m c ≡ c
unfolding finish
finish_missing m c e = rw e

finish_other :
    (id : ℕ) (o : Option OutstandingCall) (m : RpcMessage) (c : RpcChannel)
    → m.id ≢ id
    → (finish o m c).outstandings id ≡ c.outstandings id
unfolding finish
finish_other id none m c ne = refl
finish_other id (some out) m c ne = erase_other c.outstandings m.id id (λ e. ne (sym e))

receive_other :
    (id : ℕ) (ms : List RpcMessage) (c : RpcChannel)
    → AllOther id ms
    → (c' : RpcChannel) × (receive ms c ≡ some c') × (c'.outstandings id ≡ c.outstandings id)
receive_other id [] c all = (c, refl, refl)
receive_other id (m ∷ ms) c all =
    let d = finish (c.outstandings m.id) m c in
    let (c', e, kept) = receive_other id ms d all.1 in
    (c', rw (response_lem m c all.0.0) e, kept ∙ finish_other id (c.outstandings m.id) m c all.0.1)

-- A call stays outstanding while responses with other ids arrive. The response with its id completes
-- it: it is parsed into the call's object, if it has a result, the closure runs once, if there is one,
-- and the object is deleted, all of this unless the object is NULL; the id is outstanding no more, and
-- the same response once more changes nothing.
pub call_method_completes :
    (service method request : Bytes) (response done : ℕ) (c : RpcChannel) (ms : List RpcMessage)
    (m : RpcMessage)
    → AllOther c.next_id ms
    → IsResponse m
    → m.id ≡ c.next_id
    → (c2 : RpcChannel) × (c3 : RpcChannel) × (receive ms
          (call_method service method request response done c).0
        ≡ some c2)
      × (c2.outstandings c.next_id ≡ some (record { response = response; done = done }))
      × (on_rpc_message true m c2 ≡ some c3)
      × (c3.effects
          ≡ c2.effects ++ effects_of (record { response = response; done = done }) m.response)
      × (c3.outstandings c.next_id ≡ none)
      × (on_rpc_message true m c3 ≡ some c3)
unfolding call_method
call_method_completes service method request response done c ms m others is same =
    let out : OutstandingCall = record { response = response; done = done } in
    let c1 = (call_method service method request response done c).0 in
    let (c2, e, kept) = receive_other c.next_id ms c1 others in
    let found : c2.outstandings c.next_id ≡ some out =
      kept ∙ insert_self c.outstandings c.next_id out in
    let here : c2.outstandings m.id ≡ some out = ap c2.outstandings same ∙ found in
    let c3 : RpcChannel = record c2 {
      outstandings = erase c2.outstandings m.id;
      effects = c2.effects ++ effects_of out m.response;
    } in
    let gone : c3.outstandings m.id ≡ none = erase_self c2.outstandings m.id in
    (
      c2,
      c3,
      e,
      found,
      response_lem m c2 is ∙ ap some (finish_found out m c2 here),
      refl,
      ap c3.outstandings (sym same) ∙ gone,
      response_lem m c3 is ∙ ap some (finish_missing m c3 gone),
    )
