-- ===== src/Rpc/Wire/Tests.antt =====
-- Runs of two channels over bytes, with a small encoding in the place of libprotobuf's.
use serverlite.Base.{
  ℕ, suc, ◌-◌, ◌≡◌, refl, arith, true, Option, some, none, List, [], ◌∷◌, ◌++◌, Bytes, take, drop,
  length, codes, bytes_eq, if◌then◌else◌, ◌==◌,
}
use serverlite.Protobuf.Runtime.{Runtime}
use serverlite.Protobuf.Toy.{toy}
use serverlite.Tcp.Connection.{Connection, Call, readable, received, steps}
use serverlite.Tcp.Connection.Tests.{ready}
use serverlite.Rpc.{
  MessageType, request_type, response_type, error_type, RpcMessage, RpcChannel, request_of,
  parse_into, run_done, delete,
}
use serverlite.Rpc.Calls.{receive}
use serverlite.Rpc.Exchange.{called, served}
use serverlite.Rpc.Tests.{channel, response_with}
use serverlite.Rpc.Wire.{IsCarried, encode, on_bytes, on_calls, call_over_wire, on_calls_twice}

abbrev type_code : MessageType → ℕ
type_code request_type = 1
type_code response_type = 2
type_code error_type = 3

abbrev to_type : ℕ → MessageType
to_type n = if n == 1 then request_type else if n == 2 then response_type else error_type

abbrev pack : Bytes → Bytes
pack b = length b ∷ b

abbrev pack_option : Option Bytes → Bytes
pack_option none = 0 ∷ []
pack_option (some b) = suc (length b) ∷ b

abbrev unpack : Bytes → Bytes × Bytes
unpack [] = ([], [])
unpack (n ∷ rest) = (take n rest, drop n rest)

abbrev unpack_option : Bytes → Option Bytes
unpack_option [] = none
unpack_option (n ∷ rest) = if n == 0 then none else some (take (n - 1) rest)

-- Without the error, which the runs do not carry.
abbrev to_bytes : RpcMessage → Bytes
to_bytes m =
    8
    ∷ type_code m.type
    ∷ m.id
    ∷ (pack m.service ++ (pack m.method ++ (pack m.request ++ pack_option m.response)))

abbrev of_fields : ℕ → ℕ → Bytes → RpcMessage
of_fields t id rest =
    let (service, rest1) = unpack rest in
    let (method, rest2) = unpack rest1 in
    let (request, rest3) = unpack rest2 in
    record {
      type = to_type t;
      id = id;
      service = service;
      method = method;
      request = request;
      response = unpack_option rest3;
      error = none;
    }

abbrev of_bytes : Bytes → RpcMessage
of_bytes (tag ∷ t ∷ id ∷ rest) = of_fields t id rest
of_bytes other = of_fields 1 0 []

abbrev small : Runtime
small = record {
  Message = RpcMessage;
  Prototype = Unit;
  adler32 = toy.adler32;
  type_name = λ m. codes "RpcMessage";
  serialize = to_bytes;
  find_prototype = λ n. some tt;
  parse_from_array = λ p b. (of_bytes b, true);
}

abbrev same : RpcMessage → RpcMessage
same m = m

abbrev add_request : RpcMessage
add_request = request_of 3 (codes "Calc") (codes "Add") (1 ∷ [])

abbrev other_request : RpcMessage
other_request = request_of 4 (codes "Calc") (codes "Add") (2 ∷ [])

request-IsCarried : IsCarried small tt same same add_request
request-IsCarried = record {
  parses = refl;
  back = refl;
  fits = omega arith;
  fields = _;
  begins = refl;
}

other-IsCarried : IsCarried small tt same same other_request
other-IsCarried = record {
  parses = refl;
  back = refl;
  fits = omega arith;
  fields = _;
  begins = refl;
}

answer-IsCarried : IsCarried small tt same same (response_with 3 (2 ∷ []))
answer-IsCarried = record {
  parses = refl;
  back = refl;
  fits = omega arith;
  fields = _;
  begins = refl;
}

call_over_wire_example :
    let a = response_with 3 (2 ∷ []) in
    let c1 = called (codes "Calc") (codes "Add") (1 ∷ []) 70 71 channel in
    (s' : RpcChannel) × (c' : RpcChannel) × (c1.sent ≡ add_request ∷ [])
    × (on_bytes small tt same same (encode small tt same same add_request) channel ≡ some s')
    × ((served none (2 ∷ []) 3 s').sent ≡ a ∷ [])
    × (on_bytes small tt same same (encode small tt same same a) c1 ≡ some c')
    × (c'.effects ≡ parse_into 70 (2 ∷ []) ∷ run_done 71 ∷ delete 70 ∷ [])
    × (c'.outstandings 3 ≡ none)
unfolding bytes_eq
call_over_wire_example =
    call_over_wire small tt same same (codes "Calc") (codes "Add") (1 ∷ []) (2 ∷ []) 70 71 channel
      channel request-IsCarried answer-IsCarried

on_calls_twice_example :
    (d : Connection) × (ks : List Call) × (steps
        (readable (λ buf. buf) (received (encode small tt same same add_request))
          ∷ readable (λ buf. buf) (received (encode small tt same same other_request))
          ∷ [])
        ready
      ≡ some d)
    × (d.calls ≡ ready.calls ++ ks)
    × (on_calls small tt same same ks channel
        ≡ receive (add_request ∷ add_request ∷ other_request ∷ []) channel)
on_calls_twice_example =
    on_calls_twice small tt same same add_request other_request ready channel request-IsCarried
      other-IsCarried (record { up = refl; registered = refl; reads = refl }) refl
