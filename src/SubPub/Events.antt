-- ===== src/SubPub/Events.antt =====
-- The callbacks of examples/subpub.cc in any order: connections that come, send and go.
use serverlite.Base.{
  ℕ, zero, suc, ◌+◌, ◌≤◌, ◌≡◌, refl, sym, ap, subst, arith, Bool, true, false, Option, some, none,
  List, [], ◌∷◌, Bytes, bytes_eq, codes, take, if◌then◌else◌, ◌==◌, ==_refl, Bool-cases,
  Option-cases, some_inj, inl, inr, length,
}
use serverlite.Base.Options.{◌>>=◌}
use serverlite.Base.Text.{split_crlf}
use serverlite.SubPub.{
  Hub, listeners, set_listeners, set_topics, erase_conn, subscribe, leave, Next, goes_on, returns,
  publish, publish_to, unsubscribe, on_data, on_taken, Taken, get_message, on_server_message,
  message_loop, on_server_connection, forget, strip, substr, find_space, topic_to, content_from,
}
use serverlite.SubPub.Topics.{count, occurs, bytes_eq_refl, erase_conn_found}
use serverlite.SubPub.Covering.{Covers, hub_of, erased-listed, subscribe-Covers, unsubscribe-Covers}

abbrev pub Left : ℕ → List Bytes → Hub → Hub → Type 0
Left c ts h h' =
    (h'.topics ≡ h.topics)
    × ((d : ℕ) (u : Bytes)
        → count d (listeners h' u) + (if c == d then occurs u ts else 0) ≡ count d (listeners h u))

-- The loop over the topics erases the connection once for each, and no other.
pub leave_works :
    (c : ℕ) (ts : List Bytes) (h : Hub)
    → ((t : Bytes) → occurs t ts ≤ count c (listeners h t))
    → (h' : Hub) × (leave c ts h ≡ some h') × Left c ts h h'
unfolding leave
leave_works c [] h cov = (h, refl, (refl, λ d u. ground arith))
leave_works c (t ∷ ts) h cov =
    let (l, e) = erase_conn_found c (listeners h t) (held_once c t ts h (cov t)) in
    let (h', ran, (same, counts)) =
      leave_works c ts (set_listeners t l h) (λ u. still_held c t ts h l u (cov u) e) in
    (h', rw e ran, (same, λ d u. left_once c t ts h h' l d u e (counts d u)))
  where
    held_once :
        (c : ℕ) (t : Bytes) (ts : List Bytes) (h : Hub)
        → occurs t (t ∷ ts) ≤ count c (listeners h t)
        → 1 ≤ count c (listeners h t)
    held_once c t ts h some_held =
        let held = rw (bytes_eq_refl t) at some_held in omega (arith, held)

    still_held :
        (c : ℕ) (t : Bytes) (ts : List Bytes) (h : Hub) (l : List ℕ) (u : Bytes)
        → occurs u (t ∷ ts) ≤ count c (listeners h u)
        → erase_conn c (listeners h t) ≡ some l
        → occurs u ts ≤ count c (listeners (set_listeners t l h) u)
    still_held c t ts h l u held e =
        let erased = rw (==_refl c) at (erased-listed c t h l c u e) in omega (arith, held, erased)

    left_once :
        (c : ℕ) (t : Bytes) (ts : List Bytes) (h h' : Hub) (l : List ℕ) (d : ℕ) (u : Bytes)
        → erase_conn c (listeners h t) ≡ some l
        → count d (listeners h' u) + (if c == d then occurs u ts else 0)
          ≡ count d (listeners (set_listeners t l h) u)
        → count d (listeners h' u) + (if c == d then occurs u (t ∷ ts) else 0)
          ≡ count d (listeners h u)
    left_once c t ts h h' l d u e counted =
        let erased = erased-listed c t h l d u e in ground (arith, counted, erased)

publish-Covers :
    {up : ℕ → Bool} (t content : Bytes) (h : Hub)
    → Covers up h
    → Covers up (hub_of (publish t content h))
unfolding publish
publish-Covers {up} t content h v = elim (Option-cases (h.conns t)) [
  | inl nobody ↦ subst (λ o. Covers up (hub_of (publish_to t content h o))) (sym nobody) v
  | inr (l, there) ↦ subst (λ o. Covers up (hub_of (publish_to t content h o))) (sym there) v
]

subscribed-Covers :
    {up : ℕ → Bool} (c : ℕ) (o : Option Bytes) (h : Hub) (n : Next)
    → Covers up h
    → (o >>= λ t. some (goes_on (subscribe c (strip t) h))) ≡ some n
    → Covers up (hub_of n)
subscribed-Covers {up} c none h n v e = absurd (cc e)
subscribed-Covers {up} c (some t) h n v e =
    subst (λ m. Covers up (hub_of m)) (some_inj _ n e) (subscribe-Covers c (strip t) h v)

unsubscribed_text-Covers :
    {up : ℕ → Bool} (c : ℕ) (o : Option Bytes) (h : Hub) (n : Next)
    → Covers up h
    → (o >>= λ t. unsubscribe c (strip t) h) ≡ some n
    → Covers up (hub_of n)
unsubscribed_text-Covers {up} c none h n v e = absurd (cc e)
unsubscribed_text-Covers {up} c (some t) h n v e = unsubscribe-Covers c (strip t) h n v e

on_data-Covers :
    {up : ℕ → Bool} (c : ℕ) (text : Bytes) (h : Hub) (n : Next)
    → Covers up h
    → on_data c text h ≡ some n
    → Covers up (hub_of n)
unfolding on_data
on_data-Covers {up} c text h n v e = elim (Bool-cases (bytes_eq (take 3 text) (codes "sub"))) [
  | inl sub ↦ subscribed-Covers c (substr 4 text) h n v (rw sub at e)
  | inr other ↦ elim (Bool-cases (bytes_eq (take 3 text) (codes "pub"))) [
    | inl pubs ↦
        subst (λ m. Covers up (hub_of m)) (some_inj _ n (rw (other, pubs) at e))
          (publish-Covers (strip (topic_to text (find_space text)))
            (strip (content_from text (find_space text))) h v)
    | inr more ↦ elim (Bool-cases (bytes_eq (take 5 text) (codes "unsub"))) [
      | inl unsub ↦ unsubscribed_text-Covers c (substr 6 text) h n v (rw (other, more, unsub) at e)
      | inr unknown ↦
          subst (λ m. Covers up (hub_of m)) (some_inj _ n (rw (other, more, unknown) at e)) v
    ]
  ]
]

on_taken-Covers :
    {up : ℕ → Bool} (c : ℕ) (m : Taken) (h : Hub) (n : Next)
    → Covers up h
    → on_taken c m h ≡ some n
    → Covers up (hub_of n)
unfolding on_taken
on_taken-Covers {up} c m h n v e = elim (Bool-cases (m.errcode == 2)) [
  | inl bad ↦ subst (λ k. Covers up (hub_of k)) (some_inj _ n (rw bad at e)) v
  | inr good ↦ on_data-Covers c m.text h n v (rw good at e)
]

message_loop-Covers :
    {up : ℕ → Bool} (f c : ℕ) (buffer : Bytes) (h h' : Hub) (left : Bytes)
    → Covers up h
    → message_loop f c buffer h ≡ some (h', left)
    → Covers up h'
unfolding message_loop
message_loop-Covers {up} zero c buffer h h' left v e =
    subst (λ (p : Hub × Bytes). Covers up p.0) (some_inj (h, buffer) (h', left) e) v
message_loop-Covers {up} (suc f) c buffer h h' left v e = elim (Option-cases (split_crlf buffer)) [
  | inl no_line ↦
      subst (λ (p : Hub × Bytes). Covers up p.0)
        (some_inj (h, buffer) (h', left) (rw (no_line, message_loop) at e)) v
  | inr (line, found) ↦ elim (Option-cases (on_taken c (get_message buffer) h)) [
    | inl failed ↦ absurd (cc (rw (found, failed, message_loop) at e))
    | inr (goes_on h1, q) ↦
        message_loop-Covers f c (get_message buffer).buffer h1 h' left
          (on_taken-Covers c (get_message buffer) h (goes_on h1) v q)
          (rw (found, q, message_loop) at e)
    | inr (returns h1, q) ↦
        subst (λ (p : Hub × Bytes). Covers up p.0)
          (some_inj (h1, (get_message buffer).buffer) (h', left) (rw (found, q, message_loop) at e))
          (on_taken-Covers c (get_message buffer) h (returns h1) v q)
  ]
]

-- A connection comes, or goes, or the reads so far leave `buffer` for onServerMessage.
pub data Event : Type 0 where
  comes goes : ℕ → Event
  reads : ℕ → Bytes → Event

-- The callbacks, where nothing holds a connection that went, so that it is destroyed.
unfoldable pub handle : Event → Hub → Option Hub
handle (comes c) h = on_server_connection true c h
handle (goes c) h = on_server_connection false c h >>= λ h'. some (forget c h')
handle (reads c buffer) h = on_server_message c buffer h >>= λ (h', left). some h'

unfoldable pub handle_all : List Event → Hub → Option Hub
unfolding handle
handle_all [] h = some h
handle_all (e ∷ es) h = handle e h >>= handle_all es

-- The server, with the connections that are up; what went down may still be in the vectors.
pub record Live : Type 0 where
  pub hub : Hub
  pub up : ℕ → Bool

abbrev pub set_up : ℕ → Bool → (ℕ → Bool) → ℕ → Bool
set_up c b up d = if c == d then b else up d

-- The callbacks as a TCPServer makes them that calls connectionCallback once for a connection that
-- comes and once when it goes, and messageCallback between: none otherwise.
unfoldable pub handle_live : Event → Live → Option Live
handle_live (comes c) s =
    if s.up c
    then none
    else (on_server_connection true c s.hub >>= λ h.
        some (record { hub = h; up = set_up c true s.up }))
handle_live (goes c) s =
    if s.up c
    then (on_server_connection false c s.hub >>= λ h.
        some (record { hub = h; up = set_up c false s.up }))
    else none
handle_live (reads c buffer) s =
    if s.up c
    then (on_server_message c buffer s.hub >>= λ (h, left). some (record s { hub = h }))
    else none

unfoldable pub handle_all_live : List Event → Live → Option Live
unfolding handle_live
handle_all_live [] s = some s
handle_all_live (e ∷ es) s = handle_live e s >>= handle_all_live es

gone-Covers :
    {up : ℕ → Bool} (c : ℕ) (h h1 : Hub)
    → Covers up h
    → Left c (h.topics c) h h1
    → Covers (set_up c false up) h1
gone-Covers {up} c h h1 v (same, counts) d u k = elim (Bool-cases (c == d)) [
  | inl gone ↦ absurd (cc (rw (gone) at k))
  | inr other ↦
      let old = v d u (rw (other) at k) in
      let counted = rw (other) at (counts d u) in
      let topics = ap (λ (f : ℕ → List Bytes). occurs u (f d)) same in
      omega (arith, old, counted, topics)
]

-- When a connection goes that is up, if every topic that such a one holds it is listed for, each
-- erase finds it: nothing is erased at end(), and what the others hold they are still listed for.
goes_works :
    {up : ℕ → Bool} (c : ℕ) (h : Hub)
    → Covers up h
    → up c ≡ true
    → (h' : Hub) × (on_server_connection false c h ≡ some h') × Covers (set_up c false up) h'
unfolding on_server_connection
goes_works c h v k =
    let (h1, ran, left) = leave_works c (h.topics c) h (λ t. v c t k) in
    (h1, ran, gone-Covers c h h1 v left)

comes-Covers :
    {up : ℕ → Bool} (c : ℕ) (h : Hub) → Covers up h → Covers (set_up c true up) (set_topics c [] h)
comes-Covers c h v d u k = elim (Bool-cases (c == d)) [
  | inl new ↦ rw (new) (omega arith)
  | inr other ↦ rw (other) (v d u (rw (other) at k))
]

handle_live-Covers :
    (e : Event) (s s' : Live) → Covers s.up s.hub → handle_live e s ≡ some s' → Covers s'.up s'.hub
unfolding handle_live on_server_connection on_server_message
handle_live-Covers (comes c) s s' v e = elim (Bool-cases (s.up c)) [
  | inl up ↦ absurd (cc (rw (up) at e))
  | inr down ↦
      subst (λ (r : Live). Covers r.up r.hub) (some_inj _ s' (rw (down) at e))
        (comes-Covers c s.hub v)
]
handle_live-Covers (goes c) s s' v e = elim (Bool-cases (s.up c)) [
  | inl up ↦
      let (h1, ran, v1) = goes_works c s.hub v up in
      subst (λ (r : Live). Covers r.up r.hub)
        (some_inj (record { hub = h1; up = set_up c false s.up }) s' (rw (up, ran) at e)) v1
  | inr down ↦ absurd (cc (rw (down) at e))
]
handle_live-Covers (reads c buffer) s s' v e = elim (Bool-cases (s.up c)) [
  | inl up ↦ elim (Option-cases (message_loop (suc (length buffer)) c buffer s.hub)) [
    | inl failed ↦ absurd (cc (rw (up, failed) at e))
    | inr ((h1, left), q) ↦
        subst (λ (r : Live). Covers r.up r.hub)
          (some_inj (record s { hub = h1 }) s' (rw (up, q) at e))
          (message_loop-Covers (suc (length buffer)) c buffer s.hub h1 left v q)
  ]
  | inr down ↦ absurd (cc (rw (down) at e))
]

-- Whatever connections come, send and go, in any order and with any bytes, each calling back once
-- when it comes, once when it goes, and for reads only between: as long as no callback fails, and no
-- connection that was up at first held a topic that it was not listed for, the callback for any
-- connection that is up and goes then does not fail, since each erase finds it, and those that stay
-- up are listed for all that they hold. Connections that went may be left in the vectors.
pub handle_all_goes :
    (es : List Event) (s s' : Live) (c : ℕ)
    → Covers s.up s.hub
    → handle_all_live es s ≡ some s'
    → s'.up c ≡ true
    → (h : Hub) × (on_server_connection false c s'.hub ≡ some h) × Covers (set_up c false s'.up) h
unfolding handle_all_live
handle_all_goes [] s s' c v e k =
    goes_works c s'.hub (subst (λ (r : Live). Covers r.up r.hub) (some_inj s s' e) v) k
handle_all_goes (x ∷ es) s s' c v e k = elim (Option-cases (handle_live x s)) [
  | inl failed ↦ absurd (cc (rw failed at e))
  | inr (s1, q) ↦ handle_all_goes es s1 s' c (handle_live-Covers x s s1 v q) (rw q at e) k
]
