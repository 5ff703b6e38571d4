-- ===== src/Servers/Query.antt =====
-- The server of src/examples/protobuf_server.cc: the codec, the dispatcher and its callbacks on a
-- connection, and the client of src/examples/protobuf_client.cc. The answer, and the descriptors of
-- the types Query and Answer, are parameters.
use serverlite.Base.{
  ℕ, suc, Bool, true, false, Option, some, none, List, [], ◌∷◌, ◌++◌, Bytes, ◌≡◌, ◌≢◌, refl, sym,
  ap, ◌∙◌, arith, append-nil, ◌==◌, ==_refl, if◌then◌else◌,
}
use serverlite.Tcp.Connection.{
  Connection, SendResult, ◌>>=◌, is_broken, disconnecting, message_call, shutdown,
}
use serverlite.Tcp.Connection.Output.{stream}
use serverlite.Tcp.Connection.Live.{IsLive, send-Sends, handle_recv_bytes, shutdown_lem}
use serverlite.Protobuf.Runtime.{Runtime}
use serverlite.Protobuf.Codec.{Event, message, error, on_message, fill_empty_buffer}
use serverlite.Protobuf.Codec.RoundTrip.{IsSendable, on_message_sent}
use serverlite.Protobuf.Dispatcher.{
  ProtobufDispatcher, make_dispatcher, register_message_callback, Handled, by_callback, by_default,
  on_protobuf_message,
}
use serverlite.Protobuf.Dispatcher.Dispatching.{registered_call}
use serverlite.Servers.{Act, sends_text, shuts, quits, Reply, perform, incoming, serve_event}

-- The callbacks that the server registers.
abbrev pub on_query_id : ℕ
on_query_id = 1

abbrev pub on_answer_id : ℕ
on_answer_id = 2

module _ (rt : Runtime) (descriptor : rt.Message → ℕ) (casts : ℕ → rt.Message → Bool)
    (query answer : ℕ) (canned : rt.Message) where
  -- The constructor's registrations.
  abbrev pub dispatcher : ProtobufDispatcher
  dispatcher =
      register_message_callback answer on_answer_id
        (register_message_callback query on_query_id make_dispatcher)

  -- onQuery, onAnswer and onUnknownMessage. none is a failed assert of the dispatcher, which ends
  -- the process, so that nothing is sent.
  pub on_handled : Handled rt descriptor casts → List Act
  on_handled (by_callback id m) =
      if id == on_query_id
      then sends_text (fill_empty_buffer rt canned) ∷ shuts ∷ []
      else shuts ∷ []
  on_handled (by_default m) = shuts ∷ []

  abbrev pub acts_of : Option (Handled rt descriptor casts) → List Act
  acts_of none = []
  acts_of (some h) = on_handled h

  -- The codec's callbacks: the dispatcher, and defaultErrorCallback.
  pub on_events : List (Event rt) → List Act
  unfolding on_handled
  on_events [] = []
  on_events (message m ∷ es) =
      acts_of (on_protobuf_message rt descriptor casts dispatcher m) ++ on_events es
  on_events (error k buf ∷ es) = shuts ∷ on_events es

  pub query_server : Bytes → Reply
  unfolding on_events
  query_server buf =
      let (events, left) = on_message rt buf in record { acts = on_events events; left = left }

  -- onConnection of QueryClient, with messageToSend.
  pub client_on_connection : rt.Message → Bool → List Act
  client_on_connection m up = if up then sends_text (fill_empty_buffer rt m) ∷ [] else quits ∷ []

  dispatched :
      (m : rt.Message)
      → descriptor m ≡ query
      → casts query m ≡ true
      → query ≢ answer
      → on_protobuf_message rt descriptor casts dispatcher m ≡ some (by_callback on_query_id m)
  dispatched m d own other =
      let is_query : (query == descriptor m) ≡ true = rw d (==_refl query) in
      let no_answer : (answer == descriptor m) ≡ false = rw d (ground arith) in
      registered_call rt descriptor casts ((query, on_query_id) ∷ (answer, on_answer_id) ∷ []) m
        (rw d own)
      ∙ rw (no_answer, is_query) refl

  read_query :
      (m : rt.Message)
      → IsSendable rt m
      → descriptor m ≡ query
      → casts query m ≡ true
      → query ≢ answer
      → query_server (fill_empty_buffer rt m)
        ≡ record { acts = sends_text (fill_empty_buffer rt canned) ∷ shuts ∷ []; left = [] }
  unfolding query_server on_events on_handled
  read_query m sendable d own other =
      let sent = on_message_sent rt (m ∷ []) (sendable, tt) in
      let whole = append-nil (fill_empty_buffer rt m) in
      let told = rw whole at sent in rw (told, dispatched m d own other) refl

  -- A query that can be sent comes to the server in one read, on a connection that is up with
  -- nothing in recvBuffer_, and ::send does not find the connection broken: no assert fails, the
  -- server sends exactly one frame, shuts the connection down, and keeps nothing of the query; the
  -- frame, read by a codec at the other end, is the canned answer.
  pub serve_event-query :
      (m : rt.Message) (b : ℕ) (bs : Bytes) (kernel : ℕ → SendResult) (c : Connection)
      → IsSendable rt m
      → IsSendable rt canned
      → descriptor m ≡ query
      → casts query m ≡ true
      → query ≢ answer
      → fill_empty_buffer rt m ≡ b ∷ bs
      → is_broken (kernel 0) ≡ false
      → IsLive c
      → c.recv_buffer ≡ []
      → (c' : Connection) × (serve_event query_server (incoming b bs kernel) c ≡ some c')
        × (c'.recv_buffer ≡ [])
        × (c'.state ≡ disconnecting)
        × (stream c' ≡ stream c ++ fill_empty_buffer rt canned)
        × (on_message rt (fill_empty_buffer rt canned) ≡ (message canned ∷ [], []))
  unfolding serve_event perform
  serve_event-query m b bs kernel c sendable back d own other whole sound live empty =
      let reply : Reply = record {
        acts = sends_text (fill_empty_buffer rt canned) ∷ shuts ∷ [];
        left = [];
      } in
      let buf = c.recv_buffer ++ (b ∷ bs) in
      let said : query_server buf ≡ reply =
        ap (λ t. query_server (t ++ (b ∷ bs))) empty
        ∙ ap query_server (sym whole)
        ∙ read_query m sendable d own other in
      let c0 = record c { recv_buffer = []; calls = c.calls ++ message_call buf ∷ [] } in
      let l0 : IsLive c0 = record {
        up = live.up;
        registered = live.registered;
        reads = live.reads;
      } in
      let (c1, e1, l1, b1, s1) = send-Sends (fill_empty_buffer rt canned) (kernel 0) c0 l0 sound in
      let (down, kept, same) = shutdown_lem c1 l1 in
      (
        shutdown true c1,
        ap (λ o. o >>= perform (query_server buf).acts kernel)
              (handle_recv_bytes (λ t. (query_server t).left) b bs c live.reads)
            ∙ ap
                (λ (r : Reply).
                  perform r.acts kernel
                    (record c { recv_buffer = r.left; calls = c.calls ++ message_call buf ∷ [] }))
                said
            ∙ ap (λ o. o >>= perform (shuts ∷ []) (λ i. kernel (suc i))) e1,
        kept ∙ b1,
        down,
        same ∙ s1,
        ap (on_message rt) (sym (append-nil (fill_empty_buffer rt canned)))
            ∙ on_message_sent rt (canned ∷ []) (back, tt),
      )
