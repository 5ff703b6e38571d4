-- ===== src/Rpc/Objects/Ending.antt =====
-- Each object handed to RpcChannel::CallMethod is deleted, or run, once
-- (src/slite/protorpc/RpcChannel.cc).
use serverlite.Base.{
  ℕ, ◌+◌, ◌%◌, ◌^◌, ◌<◌, ◌≡◌, ◌≢◌, arith, Option, some, none, List, [], ◌∷◌, Bytes, if◌then◌else◌,
  ◌==◌, refl, ◌||◌, Option-cases, Bool-cases, inl, inr, sym, length, subst, ap, ◌∙◌, some_inj,
}
use serverlite.Rpc.{
  RpcChannel, OutstandingCall, RpcMessage, call_method, on_rpc_message, effects_of, finish, serve,
  on_typed, MessageType, error_type, request_type, response_type, is_set,
}
use serverlite.Rpc.Calls.{Untouched, serve-Untouched}
use native.Mathlib.Nat.{mod-eq_of_lt}
use serverlite.Rpc.Objects.{
  Entries, delete_all, destroy, ChannelEvent, channel_event, channel_events, ended, given,
  HasResponses, held, find, remove, IsEntries, remove-AllBelow, find_erased, held-remove,
  ended-append, ended-delete_all, ended-effects_of, calls, receives,
}

-- What is held and what has ended, in a channel with the entries `es`.
record IsKept (x total : ℕ) (c : RpcChannel) (es : Entries) : Type 0 where
  entries : IsEntries c.next_id c.outstandings es
  count : ended x c.effects + held x es ≡ total

call_method-IsKept :
    (x total response done : ℕ) (service method request : Bytes) (c : RpcChannel) (es : Entries)
    → IsKept x total c es
    → response ≢ 0
    → c.next_id + 1 < 2 ^ 64
    → let out : OutstandingCall = record { response = response; done = done } in
      let d = (call_method service method request response done c).0 in
      IsKept x
        (total + ((if response == x then 1 else 0) + (if done == x then 1 else 0)))
        d
        ((c.next_id, out) ∷ es)
      × (d.next_id ≡ c.next_id + 1)
unfolding call_method held
call_method-IsKept x total response done service method request c es w some_response fits =
    let next : (c.next_id + 1) % 2 ^ 64 ≡ c.next_id + 1 = mod-eq_of_lt fits in
    let out : OutstandingCall = record { response = response; done = done } in
    let agrees = w.entries.agrees in
    (
      record {
        entries = record {
          agrees = (λ k. ap (λ o. if c.next_id == k then some out else o) (agrees k));
          below = ((rw (next) (omega arith)), some_response, w.entries.below);
        };
        count = omega (arith, w.count);
      },
      next,
    )

finish-IsKept :
    (x total : ℕ) (m : RpcMessage) (c : RpcChannel) (es : Entries)
    → x ≢ 0
    → IsKept x total c es
    → (fs : Entries) × IsKept x total (finish (c.outstandings m.id) m c) fs
      × ((finish (c.outstandings m.id) m c).next_id ≡ c.next_id)
unfolding finish
finish-IsKept x total m c es some_object w = elim (Option-cases (c.outstandings m.id)) [
  | inl missing ↦ rw (missing) (es, w, refl)
  | inr (out, e) ↦
      let listed : find m.id es ≡ some out = sym (w.entries.agrees m.id) ∙ e in
      let (counted, responds) = held-remove x m.id es out listed in
      let ends =
        ended-effects_of x out m.response some_object (responds c.next_id w.entries.below) in
      rw (e) (
        remove m.id es,
        record {
          entries = record {
            agrees = (λ k.
                ap (λ o. if m.id == k then none else o) (w.entries.agrees k)
                ∙ find_erased c.next_id m.id k es w.entries.below);
            below = remove-AllBelow c.next_id m.id es w.entries.below;
          };
          count =
              rw (ended-append x c.effects (effects_of out m.response), ends)
                (omega (arith, counted, w.count));
        },
        refl,
      )
]

Untouched-IsKept :
    (x total : ℕ) (c d : RpcChannel) (es : Entries)
    → Untouched c d
    → IsKept x total c es
    → IsKept x total d es × (d.next_id ≡ c.next_id)
Untouched-IsKept x total c d es same w = (
  record {
    entries = record {
      agrees = (λ k. ap (λ m. m k) same.0 ∙ w.entries.agrees k);
      below = rw (same.2) w.entries.below;
    };
    count = rw (same.1) w.count;
  },
  same.2,
)

typed-IsKept :
    (x total : ℕ) (type : MessageType) (m : RpcMessage) (c d : RpcChannel) (es : Entries)
    → x ≢ 0
    → IsKept x total c es
    → on_typed type m c ≡ some d
    → (fs : Entries) × IsKept x total d fs × (d.next_id ≡ c.next_id)
unfolding on_typed
typed-IsKept x total error_type m c d es some_object w e =
    let same = some_inj c d e in
    (es, subst (λ d. IsKept x total d es) same w, ap (λ d. d.next_id) (sym same))
typed-IsKept x total request_type m c d es some_object w e =
    let same = some_inj (serve c.services m c) d e in
    let (v, kept) =
      Untouched-IsKept x total c (serve c.services m c) es (serve-Untouched c.services m c) w in
    (es, subst (λ d. IsKept x total d es) same v, ap (λ d. d.next_id) (sym same) ∙ kept)
typed-IsKept x total response_type m c d es some_object w e =
    elim (Bool-cases (is_set m.response || is_set m.error)) [
      | inr unset ↦ absurd (ground arith)
      | inl set ↦
          let same = some_inj (finish (c.outstandings m.id) m c) d (rw (set) at e) in
          let f = finish-IsKept x total m c es some_object w in
          subst (λ d. (fs : Entries) × IsKept x total d fs × (d.next_id ≡ c.next_id)) same f
    ]

received :
    (m : RpcMessage) (es : List ChannelEvent) (c : RpcChannel) (o : Option RpcChannel)
    → on_typed m.type m c ≡ o
    → channel_events (receives m ∷ es) c ≡ elim o [ none ↦ none | some d ↦ channel_events es d ]
unfolding channel_events channel_event on_rpc_message
received m es c o q = ap (λ o. elim o [ none ↦ none | some d ↦ channel_events es d ]) q

events-IsKept :
    (x : ℕ) (es : List ChannelEvent) (total : ℕ) (c c' : RpcChannel) (entries : Entries)
    → x ≢ 0
    → IsKept x total c entries
    → c.next_id + length es < 2 ^ 64
    → HasResponses es
    → channel_events es c ≡ some c'
    → (fs : Entries) × IsKept x (total + given x es) c' fs
unfolding channel_events channel_event on_rpc_message
events-IsKept x [] total c c' entries some_object w fits responses e =
    let same : c ≡ c' = cc in
    (
      entries,
      subst (λ c'. IsKept x (total + 0) c' entries) same
          (subst (λ t. IsKept x t c entries) {x = total} {y = total + 0} (omega arith) w),
    )
events-IsKept x (calls service method request response done ∷ es) total c c' entries some_object w
      fits responses e =
    let d = (call_method service method request response done c).0 in
    let (v, next) =
      call_method-IsKept x total response done service method request c entries w responses.0
        (omega arith) in
    let (fs, u) =
      events-IsKept x es (total + ((if response == x then 1 else 0) + (if done == x then 1 else 0)))
        d c' ((c.next_id, record { response = response; done = done }) ∷ entries) some_object v
        (omega arith) responses.1 e in
    (
      fs,
      subst (λ t. IsKept x t c' fs)
          {x = total
            + ((if response == x then 1 else 0) + (if done == x then 1 else 0))
            + given x es}
          {y = total
            + ((if response == x then 1 else 0) + (if done == x then 1 else 0) + given x es)}
          (omega arith) u,
    )
events-IsKept x (receives m ∷ es) total c c' entries some_object w fits responses e =
    elim (Option-cases (on_typed m.type m c)) [
      | inl failed ↦
          let stopped : channel_events (receives m ∷ es) c ≡ none = received m es c none failed in
          absurd (ground arith)
      | inr (d, q) ↦
          let (fs, v, same) = typed-IsKept x total m.type m c d entries some_object w q in
          events-IsKept x es total d c' fs some_object v (omega arith) responses
            (sym (received m es c (some d) q) ∙ e)
    ]

-- A channel with no call outstanding, whose id_ does not come round, makes calls that each have a
-- response object, and receives messages, in any order, on which no assert fails; then it is
-- destroyed. Every object that was handed to CallMethod as a response or as a closure was deleted,
-- or run once and with it deleted, just as often as it was handed over: nothing leaks, and nothing
-- is deleted twice.
pub destroy-ended :
    (x : ℕ) (es : List ChannelEvent) (c c' : RpcChannel)
    → x ≢ 0
    → c.outstandings ≡ (λ k. none)
    → c.effects ≡ []
    → c.next_id + length es < 2 ^ 64
    → HasResponses es
    → channel_events es c ≡ some c'
    → (entries : Entries) × IsEntries c'.next_id c'.outstandings entries
      × (ended x (destroy entries c').effects ≡ given x es)
unfolding destroy held
destroy-ended x es c c' some_object nothing fresh fits responses e =
    let w : IsKept x 0 c [] = record {
      entries = record { agrees = (λ k. ap (λ m. m k) nothing); below = tt };
      count = rw (fresh) refl;
    } in
    let (fs, v) = events-IsKept x es 0 c c' [] some_object w fits responses e in
    (
      fs,
      v.entries,
      rw (ended-append x c'.effects (delete_all fs), ended-delete_all x fs some_object)
          (omega (arith, v.count)),
    )
