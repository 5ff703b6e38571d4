-- ===== src/Rpc/Wire.antt =====
-- RpcChannel::onMessage of src/slite/protorpc/RpcChannel.cc with its codec, on the bytes that the
-- connection hands it. How a message of rpc.proto goes to libprotobuf and back is a parameter. An
-- error of the codec is logged; the shutdown that defaultErrorCallback asks for is the connection's.
mod Tests
use serverlite.Base.{
  ℕ, ◌+◌, ◌≤◌, ◌≡◌, refl, sym, ap, ◌∙◌, true, false, Option, some, none, List, [], ◌∷◌, ◌++◌, Bytes,
  length, bytes_eq, append-nil, append_assoc, arith, Option-cases, inl, inr,
}
use serverlite.Base.Options.{◌>>=◌}
use serverlite.Base.Words.{be32}
use serverlite.Protobuf.Runtime.{Runtime}
use serverlite.Protobuf.Codec.{max_message_len}
use serverlite.Protobuf.Lite.{
  Config, Event, message, raw_message, error, rpctag, fill_empty_buffer, on_message, turn,
}
use serverlite.Protobuf.Lite.RoundTrip.{
  repeats, sealed, on_message_tagged_frame, on_message_nil, fill_empty_buffer-sealed,
}
use serverlite.Rpc.{RpcMessage, OutstandingCall, RpcChannel, request_of, effects_of, on_rpc_message}
use serverlite.Reactor.Channel.{is_recving}
use serverlite.Tcp.Connection.{
  Connection, Call, message_call, readable, received, step, steps, handle_recv,
}
use serverlite.Tcp.Connection.Live.{IsLive, handle_recv_bytes}
use serverlite.Rpc.Calls.{refusal, receive}
use serverlite.Rpc.Exchange.{called, answer_to, served, call_method-served}

module _ (rt : Runtime) (prototype : rt.Prototype) (to_wire : RpcMessage → rt.Message)
    (from_wire : rt.Message → RpcMessage) where
  abbrev pub codec : Config rt
  codec = record { prototype = prototype; tag = rpctag; raw = none }

  -- The bytes of codec_.send.
  abbrev pub encode : RpcMessage → Bytes
  encode m = fill_empty_buffer rt rpctag (to_wire m)

  -- The callbacks of the codec, in order.
  pub run_events : List (Event rt) → RpcChannel → Option RpcChannel
  run_events [] c = some c
  run_events (message m ∷ es) c = on_rpc_message true (from_wire m) c >>= run_events es
  run_events (raw_message b ∷ es) c = run_events es c
  run_events (error e b ∷ es) c = run_events es c

  -- onMessage. It takes the buffer by value, so the connection's stays as it was.
  pub on_bytes : Bytes → RpcChannel → Option RpcChannel
  unfolding run_events
  on_bytes buf c = run_events (on_message rt codec buf).0 c

  -- What libprotobuf promises of a message that is not too long: it parses back, and its
  -- first field, the type, comes first, behind its tag 8.
  pub record IsCarried (m : RpcMessage) : Type 0 where
    pub parses : rt.parse_from_array prototype (rt.serialize (to_wire m)) ≡ (to_wire m, true)
    pub back : from_wire (to_wire m) ≡ m
    pub fits : length (rt.serialize (to_wire m)) + 8 ≤ max_message_len
    pub fields : Bytes
    pub begins : rt.serialize (to_wire m) ≡ 8 ∷ fields

  no_repeat : (m : RpcMessage) → IsCarried m → repeats rt codec rpctag (to_wire m) ≡ false
  unfolding bytes_eq
  no_repeat m carried = rw carried.begins refl

  on_frame :
      (m : RpcMessage) (rest : Bytes) (c : RpcChannel)
      → IsCarried m
      → on_bytes (encode m ++ rest) c ≡ on_rpc_message true m c >>= on_bytes rest
  unfolding on_bytes run_events
  on_frame m rest c carried =
      rw
        (
          on_message_tagged_frame rt codec (to_wire m) rest refl (omega (arith, carried.fits))
              carried.parses (no_repeat m carried),
          carried.back,
        )
        refl

  on_nothing : (c : RpcChannel) → on_bytes [] c ≡ some c
  unfolding on_bytes run_events
  on_nothing c = rw (on_message_nil rt codec) refl

  on_frame_alone :
      (m : RpcMessage) (c : RpcChannel)
      → IsCarried m
      → on_bytes (encode m) c ≡ on_rpc_message true m c
  on_frame_alone m c carried =
      ap (λ b. on_bytes b c) (sym (append-nil (encode m)))
      ∙ on_frame m [] c carried
      ∙ ends (on_rpc_message true m c)
    where
      ends : (o : Option RpcChannel) → o >>= on_bytes [] ≡ o
      ends none = refl
      ends (some d) = on_nothing d

  -- A call over the wire, its request and its answer of a size that the codec takes: the server reads
  -- the bytes of the request, and sends one answer, the error if it refuses the request or else the
  -- result of the service's method once that runs its closure; the client reads the bytes of the
  -- answer with no failed assert, the call is completed with what the answer carries, and is
  -- outstanding no more.
  pub call_over_wire :
      (service method request reply : Bytes) (response done : ℕ) (c s : RpcChannel)
      → IsCarried (request_of c.next_id service method request)
      → IsCarried (
          answer_to
            (refusal s.services (request_of c.next_id service method request))
            reply
            c.next_id)
      → let m = request_of c.next_id service method request in
        let r = refusal s.services m in
        let a = answer_to r reply c.next_id in
        let c1 = called service method request response done c in
        (s' : RpcChannel) × (c' : RpcChannel) × (c1.sent ≡ c.sent ++ m ∷ [])
        × (on_bytes (encode m) s ≡ some s')
        × ((served r reply c.next_id s').sent ≡ s.sent ++ a ∷ [])
        × (on_bytes (encode a) c1 ≡ some c')
        × (c'.effects
            ≡ c.effects ++ effects_of (record { response = response; done = done }) a.response)
        × (c'.outstandings c.next_id ≡ none)
  call_over_wire service method request reply response done c s out back =
      let (asks, (s', c', took, says, got, did, gone)) =
        call_method-served service method request reply response done c s in
      (
        s',
        c',
        asks,
        on_frame_alone _ s out ∙ took,
        says,
        on_frame_alone _ (called service method request response done c) back ∙ got,
        did,
        gone,
      )

  -- What the channel does for the callbacks of its connection.
  abbrev pub on_calls : List Call → RpcChannel → Option RpcChannel
  on_calls [] c = some c
  on_calls (message_call buf ∷ ks) c = on_bytes buf c >>= on_calls ks
  on_calls (_ ∷ ks) c = on_calls ks c

  encode-cons : (m : RpcMessage) → (b : ℕ) × (bs : Bytes) × (encode m ≡ b ∷ bs)
  unfolding be32
  encode-cons m = (_, _, fill_empty_buffer-sealed rt codec rpctag (to_wire m))

  -- onMessage leaves the connection's buffer as it is.
  abbrev after_read : Bytes → Connection → Connection
  after_read bs c = record c {
    recv_buffer = c.recv_buffer ++ bs;
    calls = c.calls ++ message_call (c.recv_buffer ++ bs) ∷ [];
  }

  read_frame :
      (m : RpcMessage) (c : Connection)
      → is_recving c.channel ≡ true
      → handle_recv (λ buf. buf) (received (encode m)) c ≡ some (after_read (encode m) c)
  read_frame m c on =
      let (b, bs, e) = encode-cons m in rw e (handle_recv_bytes (λ buf. buf) b bs c on)

  on_two_frames :
      (m n : RpcMessage) (s : RpcChannel)
      → IsCarried m
      → IsCarried n
      → on_calls (message_call (encode m ++ encode n) ∷ []) s ≡ receive (m ∷ n ∷ []) s
  on_two_frames m n s cm cn = elim (Option-cases (on_rpc_message true m s)) [
    | inl failed ↦ rw (on_frame m (encode n) s cm, failed) refl
    | inr (t, e) ↦ rw (on_frame m (encode n) s cm, e, on_frame_alone n t cn) refl
  ]

  on_calls_lem :
      (m n : RpcMessage) (s : RpcChannel)
      → IsCarried m
      → IsCarried n
      → on_calls (message_call (encode m) ∷ message_call (encode m ++ encode n) ∷ []) s
        ≡ receive (m ∷ m ∷ n ∷ []) s
  on_calls_lem m n s cm cn = elim (Option-cases (on_rpc_message true m s)) [
    | inl failed ↦ rw (on_frame_alone m s cm, failed) refl
    | inr (t, e) ↦ rw (on_frame_alone m s cm, e) (on_two_frames m n t cm cn)
  ]

  -- Two messages of a size that the codec takes come to a connection that is up, in two reads, with
  -- nothing in recvBuffer_ before: onMessage takes the buffer by value, so the first message is still
  -- there at the second read, and the channel takes it twice.
  pub on_calls_twice :
      (m n : RpcMessage) (c : Connection) (s : RpcChannel)
      → IsCarried m
      → IsCarried n
      → IsLive c
      → c.recv_buffer ≡ []
      → (d : Connection) × (ks : List Call) × (steps
            (readable (λ buf. buf) (received (encode m))
              ∷ readable (λ buf. buf) (received (encode n))
              ∷ [])
            c
          ≡ some d)
        × (d.calls ≡ c.calls ++ ks)
        × (on_calls ks s ≡ receive (m ∷ m ∷ n ∷ []) s)
  unfolding steps step
  on_calls_twice m n c s cm cn live empty = (
    after_read (encode n) (after_read (encode m) c),
    message_call (c.recv_buffer ++ encode m)
        ∷ message_call ((c.recv_buffer ++ encode m) ++ encode n)
        ∷ [],
    rw (read_frame m c live.reads, read_frame n (after_read (encode m) c) live.reads) refl,
    append_assoc c.calls _ _,
    rw empty (on_calls_lem m n s cm cn),
  )
