-- ===== src/Rpc.antt =====
-- src/slite/protorpc: RpcChannel.h and RpcChannel.cc, and registerService of RpcServer.cc. The
-- messages are those of rpc.proto; `none` as a result stands for a failed assert. A response object
-- and a closure are known by their addresses, 0 for NULL. The connection callback that sends a
-- request, and disconnect and quit, are recorded.
pub mod Calls
pub mod Exchange
pub mod Wire
pub mod Objects
pub mod Tests
use serverlite.Base.{
  ℕ, ◌+◌, ◌%◌, ◌^◌, Bool, true, false, not, ◌||◌, Option, some, none, List, [], ◌∷◌, ◌++◌, Bytes,
  if◌then◌else◌, ◌==◌, bytes_eq,
}
use serverlite.Base.Maps.{Map, insert, erase}

pub data MessageType : Type 0 where
  request_type response_type error_type : MessageType

pub data ErrorCode : Type 0 where
  no_error wrong_proto no_service no_method invalid_request invalid_response timeout : ErrorCode

-- RpcMessage; an optional field that is not set is none, and is read as empty.
pub record RpcMessage : Type 0 where
  pub type : MessageType
  pub id : ℕ
  pub service : Bytes
  pub method : Bytes
  pub request : Bytes
  pub response : Option Bytes
  pub error : Option ErrorCode

-- A registered service: FindMethodByName, and ParseFromString of a request of that method.
pub record Service : Type 0 where
  pub find_method : Bytes → Option ℕ
  pub parses : ℕ → Bytes → Bool

pub record OutstandingCall : Type 0 where
  pub response : ℕ
  pub done : ℕ

-- A call of Service::CallMethod, whose closure doneCallback has the id.
pub record ServiceCall : Type 0 where
  pub service : Bytes
  pub method : ℕ
  pub request : Bytes
  pub id : ℕ

-- What is done to the objects of the caller: a response parsed into an object, a closure run (the
-- client disconnects then, and the loop quits), and an object deleted.
pub data Effect : Type 0 where
  parse_into : ℕ → Bytes → Effect
  run_done : ℕ → Effect
  delete : ℕ → Effect

-- `id` is the bit pattern of id_; `sent` are the messages sent by the codec.
pub record RpcChannel : Type 0 where
  pub next_id : ℕ
  pub outstandings : Map OutstandingCall
  pub services : Option (Bytes → Option Service)
  pub sent : List RpcMessage
  pub started : List ServiceCall
  pub effects : List Effect

-- RpcServer::registerService, on services_.
abbrev pub register_service : Bytes → Service → (Bytes → Option Service) → Bytes → Option Service
register_service name s services n = if bytes_eq name n then some s else services n

-- RpcServer::onConnection: the context of the connection, a channel with the server's services
-- while it is up. Nothing sets id_ at first; `id` is what it holds.
pub on_connection : Bool → (Bytes → Option Service) → ℕ → Option RpcChannel
on_connection up services id =
    if up
    then some (record {
      next_id = id;
      outstandings = λ i. none;
      services = some services;
      sent = [];
      started = [];
      effects = [];
    })
    else none

-- The request of CallMethod.
abbrev pub request_of : ℕ → Bytes → Bytes → Bytes → RpcMessage
request_of id service method request = record {
  type = request_type;
  id = id;
  service = service;
  method = method;
  request = request;
  response = none;
  error = none;
}

-- CallMethod, up to connect(); the request that connectedCallback is bound to.
pub call_method : Bytes → Bytes → Bytes → ℕ → ℕ → RpcChannel → RpcChannel × RpcMessage
call_method service method request response done c =
    let out : OutstandingCall = record { response = response; done = done } in
    (
      record c {
        next_id = (c.next_id + 1) % 2 ^ 64;
        outstandings = insert c.outstandings c.next_id out;
      },
      request_of c.next_id service method request,
    )

-- connectedCallback: `up` is conn->connected().
abbrev pub connected_callback : Bool → RpcMessage → RpcChannel → RpcChannel
connected_callback up request c = if up then record c { sent = c.sent ++ request ∷ [] } else c

-- The effects on the objects of an outstanding call, in order; the response object is deleted at
-- the end of the block.
abbrev parse_effects : ℕ → Option Bytes → List Effect
parse_effects object none = []
parse_effects object (some b) = parse_into object b ∷ []

abbrev pub effects_of : OutstandingCall → Option Bytes → List Effect
effects_of out response =
    if out.response == 0
    then []
    else parse_effects out.response response
      ++ ((if out.done == 0 then [] else run_done out.done ∷ []) ++ delete out.response ∷ [])

pub finish : Option OutstandingCall → RpcMessage → RpcChannel → RpcChannel
finish none m c = c
finish (some out) m c = record c {
  outstandings = erase c.outstandings m.id;
  effects = c.effects ++ effects_of out m.response;
}

-- The answer that carries an error.
abbrev pub error_answer : ℕ → ErrorCode → RpcMessage
error_answer id e = record {
  type = response_type;
  id = id;
  service = [];
  method = [];
  request = [];
  response = none;
  error = some e;
}

abbrev pub send : RpcMessage → RpcChannel → RpcChannel
send m c = record c { sent = c.sent ++ m ∷ [] }

-- From FindMethodByName on.
call_found : Service → Option ℕ → RpcMessage → RpcChannel → RpcChannel
call_found s none m c = send (error_answer m.id no_method) c
call_found s (some method) m c =
    if s.parses method m.request
    then record c {
      started =
          c.started
          ++ record { service = m.service; method = method; request = m.request; id = m.id } ∷ [];
    }
    else send (error_answer m.id invalid_request) c

call_service : Option Service → RpcMessage → RpcChannel → RpcChannel
unfolding call_found
call_service none m c = send (error_answer m.id no_service) c
call_service (some s) m c = call_found s (s.find_method m.method) m c

pub serve : Option (Bytes → Option Service) → RpcMessage → RpcChannel → RpcChannel
unfolding call_service
serve none m c = send (error_answer m.id no_service) c
serve (some services) m c = call_service (services m.service) m c

abbrev pub is_set : {A : Type 0} → Option A → Bool
is_set none = false
is_set (some x) = true

pub on_typed : MessageType → RpcMessage → RpcChannel → Option RpcChannel
unfolding finish serve
on_typed response_type m c =
    if is_set m.response || is_set m.error then some (finish (c.outstandings m.id) m c) else none
on_typed request_type m c = some (serve c.services m c)
on_typed error_type m c = some c

-- onRpcMessage. `same` is conn == conn_.
pub on_rpc_message : Bool → RpcMessage → RpcChannel → Option RpcChannel
unfolding on_typed
on_rpc_message same m c = if same then on_typed m.type m c else none

-- doneCallback, with what the response object serializes to.
pub done_callback : Bytes → ℕ → RpcChannel → RpcChannel
done_callback response id c =
    send (record (error_answer id no_error) { response = some response; error = none }) c
