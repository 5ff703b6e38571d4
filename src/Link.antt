-- ===== src/Link.antt =====
-- src/slite/protobuf/ProtobufCodec.cc on a connection of src/slite/TCPConnection.cc: onMessage is the
-- message callback of handleRecv at one end, and what the other end put on its socket is what comes
-- in, cut into reads by the network.
mod Tests
use serverlite.Base.{
  ℕ, Option, Bool, true, false, some, none, List, [], ◌∷◌, ◌++◌, Bytes, map, concat, ◌≡◌, refl, sym,
  ap, ◌∙◌, arith, append-nil, append_assoc,
}
use serverlite.Framing.{Turn, wait, decode, feed, feed-concat, prefix_waits}
use serverlite.Reactor.Channel.{is_recving}
use serverlite.Tcp.Connection.{
  Connection, Op, readable, received, step, steps, handle_recv, ◌>>=◌, Call, connection_call,
  message_call, close_call, write_complete_call,
}
use serverlite.Tcp.Connection.Output.{stream, accepted_all, steps-stream}
use serverlite.Protobuf.Runtime.{Runtime}
use serverlite.Protobuf.Codec.{Event, message, turn, on_message, fill_empty_buffer}
use serverlite.Protobuf.Codec.Stream.{turn-IsIncremental}
use serverlite.Protobuf.Codec.Failing.{turn-FailsForGood}
use serverlite.Protobuf.Codec.RoundTrip.{AllSendable, on_message_sent}

-- ::recv gives no bytes only at the end of the stream.
abbrev pub AllNonempty : List Bytes → Type 0
AllNonempty [] = Unit
AllNonempty ([] ∷ cs) = ⊥
AllNonempty ((b ∷ bs) ∷ cs) = AllNonempty cs

module _ (rt : Runtime) where
  -- The channel's events for the reads, with onMessage as the message callback.
  pub reads : List Bytes → List Op
  reads [] = []
  reads (bs ∷ cs) = readable (λ buf. (on_message rt buf).1) (received bs) ∷ reads cs

  -- The messages and errors that the message callbacks reported.
  pub delivered : List Call → List (Event rt)
  delivered [] = []
  delivered (message_call buf ∷ ks) = (on_message rt buf).0 ++ delivered ks
  delivered (_ ∷ ks) = delivered ks

  delivered-append :
      (ks : List Call) (buf : Bytes)
      → delivered (ks ++ message_call buf ∷ []) ≡ delivered ks ++ (on_message rt buf).0
  unfolding delivered
  delivered-append [] buf = append-nil (on_message rt buf).0
  delivered-append (message_call b ∷ ks) buf =
      rw (delivered-append ks buf) (sym (append_assoc (on_message rt b).0 (delivered ks) _))
  delivered-append (connection_call u ∷ ks) buf = delivered-append ks buf
  delivered-append (close_call ∷ ks) buf = delivered-append ks buf
  delivered-append (write_complete_call ∷ ks) buf = delivered-append ks buf

  read_step :
      (b : ℕ) (bs : Bytes) (c : Connection)
      → is_recving c.channel ≡ true
      → handle_recv (λ buf. (on_message rt buf).1) (received (b ∷ bs)) c
        ≡ some (record c {
          recv_buffer = (on_message rt (c.recv_buffer ++ (b ∷ bs))).1;
          calls = c.calls ++ message_call (c.recv_buffer ++ (b ∷ bs)) ∷ [];
        })
  unfolding handle_recv
  read_step b bs c on = ground arith

  -- The reads leave in recvBuffer_, and report, what the decoder run on each of them does.
  steps-feed :
      (cs : List Bytes) (c : Connection)
      → AllNonempty cs
      → is_recving c.channel ≡ true
      → (d : Connection) × (steps (reads cs) c ≡ some d)
        × (d.recv_buffer ≡ (feed (turn rt) c.recv_buffer cs).1)
        × (delivered d.calls ≡ delivered c.calls ++ (feed (turn rt) c.recv_buffer cs).0)
  unfolding steps reads feed step handle_recv on_message
  steps-feed [] c ne on = (c, refl, refl, sym (append-nil (delivered c.calls)))
  steps-feed ([] ∷ cs) c ne on = absurd ne
  steps-feed ((b ∷ bs) ∷ cs) c ne on =
      let buf = c.recv_buffer ++ (b ∷ bs) in
      let c1 = record c {
        recv_buffer = (on_message rt buf).1;
        calls = c.calls ++ message_call buf ∷ [];
      } in
      let (d, ran, left, told) = steps-feed cs c1 ne on in
      (
        d,
        ap (λ (o : Option Connection). o >>= steps (reads cs)) (read_step b bs c on) ∙ ran,
        left,
        told ∙ rw (delivered-append c.calls buf) (append_assoc (delivered c.calls) _ _),
      )

  feed_sent :
      (ms : List rt.Message) (cs : List Bytes)
      → AllSendable rt ms
      → concat cs ≡ concat (map (fill_empty_buffer rt) ms)
      → feed (turn rt) [] cs ≡ (map message ms, [])
  unfolding on_message turn
  feed_sent ms cs all cut =
      let sent = on_message_sent rt ms all in
      feed-concat (turn rt) (turn-IsIncremental rt) (turn-FailsForGood rt) cs [] refl
        (rw (cut, sent) refl)
      ∙ rw cut sent

  -- From one end to the other. The sender starts with nothing sent or waiting; along any history in
  -- which it takes on exactly the encodings of messages that can be sent, with no failed assert, it
  -- ends with nothing waiting. The receiver reads, starts with an empty recvBuffer_, and reads what
  -- went to the sender's socket in pieces, none of them empty, cut in any places. Then no assert of
  -- the receiver fails, what its callbacks report is exactly those messages in the order they
  -- were taken on, and recvBuffer_ is empty again.
  pub link_delivers :
      (ms : List rt.Message) (history : List Op) (s s' : Connection) (cs : List Bytes)
      (c : Connection)
      → AllSendable rt ms
      → s.socket.output ≡ []
      → s.send_buffer ≡ []
      → steps history s ≡ some s'
      → accepted_all history s ≡ concat (map (fill_empty_buffer rt) ms)
      → s'.send_buffer ≡ []
      → concat cs ≡ s'.socket.output
      → AllNonempty cs
      → is_recving c.channel ≡ true
      → c.recv_buffer ≡ []
      → (d : Connection) × (steps (reads cs) c ≡ some d)
        × (d.recv_buffer ≡ [])
        × (delivered d.calls ≡ delivered c.calls ++ map message ms)
  link_delivers ms history s s' cs c all out buf ran taken drained cut ne on empty =
      let wire = steps-stream history s s' ran in
      let whole : s'.socket.output ≡ concat (map (fill_empty_buffer rt) ms) =
        sym (append-nil s'.socket.output)
        ∙ (rw drained at wire)
        ∙ ap (◌++◌ (stream s)) taken
        ∙ rw (out, buf) in
      let fed = feed_sent ms cs all (cut ∙ whole) in
      let (d, went, left, told) = steps-feed cs c ne on in
      (d, went, left ∙ rw (empty, fed) refl, told ∙ rw (empty, fed) refl)
