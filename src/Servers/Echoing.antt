-- ===== src/Servers/Echoing.antt =====
-- What the servers of src/examples/simple_server.cc send for what they receive.
use serverlite.Base.{
  ℕ, suc, false, some, List, [], ◌∷◌, ◌++◌, Bytes, ◌≡◌, refl, sym, ap, ◌∙◌, append-nil,
  append_assoc,
}
use serverlite.Tcp.Connection.{Connection, SendResult, ◌>>=◌, is_broken, message_call}
use serverlite.Tcp.Connection.Output.{stream}
use serverlite.Tcp.Connection.Live.{IsLive, Sends, send-Sends, handle_send-Sends, handle_recv_bytes}
use serverlite.Servers.{
  Act, sends_text, shuts, quits, Reply, echo, perform, Event, incoming, drains, serve_event, serve,
}

-- No ::send fails as on a broken connection.
abbrev pub AllSound : List Event → Type 0
AllSound [] = Unit
AllSound (incoming b bs answer ∷ es) = ((i : ℕ) → is_broken (answer i) ≡ false) × AllSound es
AllSound (drains r ∷ es) = AllSound es

-- The bytes that came in.
abbrev pub input : List Event → Bytes
input [] = []
input (incoming b bs answer ∷ es) = (b ∷ bs) ++ input es
input (drains r ∷ es) = input es

-- A callback that only sends.
abbrev pub OnlySends : List Act → Type 0
OnlySends [] = Unit
OnlySends (sends_text bytes ∷ acts) = OnlySends acts
OnlySends (_ ∷ acts) = ⊥

abbrev pub texts : List Act → Bytes
texts [] = []
texts (sends_text bytes ∷ acts) = bytes ++ texts acts
texts (_ ∷ acts) = texts acts

-- What a message callback sends for a stream of bytes, of which `buf` is in the buffer, and what
-- it leaves there.
abbrev pub answers : (Bytes → Reply) → Bytes → List Event → Bytes × Bytes
answers on_message buf [] = ([], buf)
answers on_message buf (incoming b bs answer ∷ es) =
    let r = on_message (buf ++ (b ∷ bs)) in
    let (said, left) = answers on_message r.left es in (texts r.acts ++ said, left)
answers on_message buf (drains r ∷ es) = answers on_message buf es

perform-Sends :
    (acts : List Act) (answer : ℕ → SendResult) (c : Connection)
    → OnlySends acts
    → ((i : ℕ) → is_broken (answer i) ≡ false)
    → IsLive c
    → Sends (texts acts) c (perform acts answer c)
unfolding perform
perform-Sends [] answer c only sound live = (c, refl, live, refl, sym (append-nil (stream c)))
perform-Sends (sends_text bytes ∷ acts) answer c only sound live =
    let (c1, e1, l1, b1, s1) = send-Sends bytes (answer 0) c live (sound 0) in
    let (c', e, l, b, s) =
      perform-Sends acts (λ i. answer (suc i)) c1 only (λ i. sound (suc i)) l1 in
    (
      c',
      ap (λ o. o >>= perform acts (λ i. answer (suc i))) e1 ∙ e,
      l,
      b ∙ b1,
      s ∙ ap (λ t. t ++ texts acts) s1 ∙ append_assoc (stream c) bytes (texts acts),
    )
perform-Sends (shuts ∷ acts) answer c only sound live = absurd only
perform-Sends (quits ∷ acts) answer c only sound live = absurd only

-- A server whose callback only sends, on a connection that is up, for any reads and any answers of
-- the kernel but a broken connection: no assert fails, the connection stays up, and behind what was
-- sent before comes exactly what the callback answers, piece by piece.
pub serve-answers :
    (on_message : Bytes → Reply) (es : List Event) (c : Connection)
    → ((buf : Bytes) → OnlySends (on_message buf).acts)
    → AllSound es
    → IsLive c
    → (c' : Connection) × (serve on_message es c ≡ some c')
      × IsLive c'
      × (c'.recv_buffer ≡ (answers on_message c.recv_buffer es).1)
      × (stream c' ≡ stream c ++ (answers on_message c.recv_buffer es).0)
unfolding serve serve_event
serve-answers on_message [] c only sound live = (c, refl, live, refl, sym (append-nil (stream c)))
serve-answers on_message (incoming b bs answer ∷ es) c only sound live =
    let buf = c.recv_buffer ++ (b ∷ bs) in
    let r = on_message buf in
    let c0 = record c { recv_buffer = r.left; calls = c.calls ++ message_call buf ∷ [] } in
    let e0 = handle_recv_bytes (λ buf. (on_message buf).left) b bs c live.reads in
    let l0 : IsLive c0 = record {
      up = live.up;
      registered = live.registered;
      reads = live.reads;
    } in
    let (c1, e1, l1, b1, s1) = perform-Sends r.acts answer c0 (only buf) sound.0 l0 in
    let (c', e, l, b', s) = serve-answers on_message es c1 only sound.1 l1 in
    (
      c',
      ap (λ o. o >>= perform r.acts answer >>= serve on_message es) e0
          ∙ ap (λ o. o >>= serve on_message es) e1
          ∙ e,
      l,
      b' ∙ ap (λ t. (answers on_message t es).1) b1,
      s ∙ rw (b1, s1) (append_assoc (stream c) (texts r.acts) _),
    )
serve-answers on_message (drains r ∷ es) c only sound live =
    let (c1, e1, l1, b1, s1) = handle_send-Sends r c live in
    let (c', e, l, b, s) = serve-answers on_message es c1 only sound l1 in
    (
      c',
      ap (λ o. o >>= serve on_message es) e1 ∙ e,
      l,
      b ∙ ap (λ t. (answers on_message t es).1) b1,
      s ∙ rw (b1, s1, append-nil (stream c)) refl,
    )

echoed : (es : List Event) → answers echo [] es ≡ (input es, [])
echoed [] = refl
echoed (incoming b bs answer ∷ es) = rw (echoed es, append-nil bs) refl
echoed (drains r ∷ es) = echoed es

-- The echo server of simple_server.cc, on a connection that is up with nothing in recvBuffer_, for
-- any reads and any answers of the kernel but a broken connection: no assert fails, the connection
-- stays up, and what went out and what waits to go out is what was sent before and then exactly what
-- came in; nothing is left in recvBuffer_.
pub serve-echo :
    (es : List Event) (c : Connection)
    → AllSound es
    → IsLive c
    → c.recv_buffer ≡ []
    → (c' : Connection) × (serve echo es c ≡ some c')
      × IsLive c'
      × (c'.recv_buffer ≡ [])
      × (stream c' ≡ stream c ++ input es)
serve-echo es c sound live empty =
    let (c', e, l, b, s) = serve-answers echo es c (λ buf. tt) sound live in
    (c', e, l, b ∙ rw (empty, echoed es) refl, s ∙ rw (empty, echoed es) refl)
