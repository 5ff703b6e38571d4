-- ===== src/Rpc/Objects.antt =====
-- The objects that a caller hands to RpcChannel::CallMethod, up to the destructor of the channel
-- (src/slite/protorpc/RpcChannel.cc).
pub mod Ending
pub mod Tests
use serverlite.Base.{
  ℕ, ◌+◌, ◌%◌, ◌^◌, ◌≤◌, ◌<◌, ◌≡◌, ◌≢◌, arith, Bool, true, false, Option, some, none, List, [], ◌∷◌,
  ◌++◌, Bytes, if◌then◌else◌, ◌==◌, refl, ◌||◌, Option-cases, Bool-cases, inl, inr, ==_ne, ==_refl,
  sym, suc, length, subst, ap, ◌∙◌, ==_iff, some_inj,
}
use serverlite.Base.Maps.{Map, insert, erase}
use serverlite.Rpc.{
  RpcChannel, OutstandingCall, Effect, parse_into, run_done, delete, RpcMessage, call_method,
  on_rpc_message, effects_of, finish, serve, on_typed, MessageType, error_type, request_type,
  response_type, is_set,
}
use serverlite.Rpc.Calls.{Untouched, serve-Untouched}
use native.Mathlib.Nat.{mod-eq_of_lt}

-- The entries of outstandings_, the one with the greatest id first.
abbrev pub Entries : Type 0
Entries = List (ℕ × OutstandingCall)

abbrev pub delete_object : ℕ → List Effect
delete_object a = if a == 0 then [] else delete a ∷ []

abbrev pub delete_all : Entries → List Effect
delete_all [] = []
delete_all ((k, out) ∷ es) = delete_all es ++ (delete_object out.response ++ delete_object out.done)

-- ~RpcChannel.
unfoldable pub destroy : Entries → RpcChannel → RpcChannel
destroy es c = record c { effects = c.effects ++ delete_all es }

-- A call with the addresses of its response and its closure, or a message of the peer.
pub data ChannelEvent : Type 0 where
  calls : Bytes → Bytes → Bytes → ℕ → ℕ → ChannelEvent
  receives : RpcMessage → ChannelEvent

unfoldable pub channel_event : ChannelEvent → RpcChannel → Option RpcChannel
channel_event (calls service method request response done) c =
    some (call_method service method request response done c).0
channel_event (receives m) c = on_rpc_message true m c

unfoldable pub channel_events : List ChannelEvent → RpcChannel → Option RpcChannel
unfolding channel_event
channel_events [] c = some c
channel_events (e ∷ es) c = elim (channel_event e c) [ none ↦ none | some d ↦ channel_events es d ]

-- How often the object at an address was ended: deleted, or run, after which it deletes itself.
abbrev pub ended : ℕ → List Effect → ℕ
ended x [] = 0
ended x (parse_into y b ∷ es) = ended x es
ended x (run_done y ∷ es) = (if y == x then 1 else 0) + ended x es
ended x (delete y ∷ es) = (if y == x then 1 else 0) + ended x es

-- How often it was handed to CallMethod.
abbrev pub given : ℕ → List ChannelEvent → ℕ
given x [] = 0
given x (calls service method request response done ∷ es) =
    (if response == x then 1 else 0) + (if done == x then 1 else 0) + given x es
given x (receives m ∷ es) = given x es

-- Every call has a response object.
abbrev pub HasResponses : List ChannelEvent → Type 0
HasResponses [] = Unit
HasResponses (calls service method request response done ∷ es) = (response ≢ 0) × HasResponses es
HasResponses (receives m ∷ es) = HasResponses es

unfoldable pub held : ℕ → Entries → ℕ
held x [] = 0
held x ((k, out) ∷ es) =
    (if out.response == x then 1 else 0) + (if out.done == x then 1 else 0) + held x es

abbrev pub find : ℕ → Entries → Option OutstandingCall
find k [] = none
find k ((j, out) ∷ es) = if j == k then some out else find k es

unfoldable pub remove : ℕ → Entries → Entries
remove k [] = []
remove k ((j, out) ∷ es) = let rest = remove k es in if j == k then es else (j, out) ∷ rest

abbrev pub AllBelow : ℕ → Entries → Type 0
AllBelow n [] = Unit
AllBelow n ((k, out) ∷ es) = (k < n) × (out.response ≢ 0) × AllBelow k es

-- The entries are those of the map, and each id, below n, is there once.
pub record IsEntries (n : ℕ) (m : Map OutstandingCall) (es : Entries) : Type 0 where
  pub agrees : (k : ℕ) → m k ≡ find k es
  pub below : AllBelow n es

pub AllBelow-mono : (n m : ℕ) (es : Entries) → n ≤ m → AllBelow n es → AllBelow m es
AllBelow-mono n m [] l p = tt
AllBelow-mono n m ((k, out) ∷ es) l p = (omega (arith, l, p.0), p.1, p.2)

pub find_above : (n k : ℕ) (es : Entries) → AllBelow n es → n ≤ k → find k es ≡ none
find_above n k [] p l = refl
find_above n k ((j, out) ∷ es) p l =
    rw (==_ne j k (λ e. omega (arith, p.0))) (find_above j k es p.2 (omega (arith, p.0)))

pub remove-AllBelow : (n k : ℕ) (es : Entries) → AllBelow n es → AllBelow n (remove k es)
unfolding remove
remove-AllBelow n k [] p = tt
remove-AllBelow n k ((j, out) ∷ es) p = elim (Bool-cases (j == k)) [
  | inl here ↦ rw (here) (AllBelow-mono j n es (omega (arith, p.0)) p.2)
  | inr there ↦ rw (there) (p.0, p.1, remove-AllBelow j k es p.2)
]

pub find-remove_self : (n k : ℕ) (es : Entries) → AllBelow n es → find k (remove k es) ≡ none
unfolding remove
find-remove_self n k [] p = refl
find-remove_self n k ((j, out) ∷ es) p = elim (Bool-cases (j == k)) [
  | inl here ↦ rw (here) (find_above j k es p.2 (omega (arith, (==_iff j k).0 here)))
  | inr there ↦ rw (there, there) (find-remove_self j k es p.2)
]

pub find-remove_other :
    (i k : ℕ) (es : Entries) → (k == i) ≡ false → find i (remove k es) ≡ find i es
unfolding remove
find-remove_other i k [] ne = refl
find-remove_other i k ((j, out) ∷ es) ne = elim (Bool-cases (j == k)) [
  | inl here ↦ let missed : (j == i) ≡ false = rw ((==_iff j k).0 here) ne in rw (here, missed) refl
  | inr there ↦ rw (there) (ap (λ r. if j == i then some out else r) (find-remove_other i k es ne))
]

pub find_erased :
    (n k i : ℕ) (es : Entries)
    → AllBelow n es
    → (if k == i then none else find i es) ≡ find i (remove k es)
find_erased n k i es p = elim (Bool-cases (k == i)) [
  | inl here ↦ rw (here, sym ((==_iff k i).0 here)) (sym (find-remove_self n k es p))
  | inr there ↦ rw (there) (sym (find-remove_other i k es there))
]

pub held-remove :
    (x k : ℕ) (es : Entries) (out : OutstandingCall)
    → find k es ≡ some out
    → (held x es
        ≡ (if out.response == x then 1 else 0)
          + (if out.done == x then 1 else 0)
          + held x (remove k es))
      × ((n : ℕ) → AllBelow n es → out.response ≢ 0)
unfolding held remove
held-remove x k [] out e = absurd (ground arith)
held-remove x k ((j, o) ∷ es) out e = elim (Bool-cases (j == k)) [
  | inl here ↦
      let same : o ≡ out = some_inj o out (rw (here) at e) in
      (rw (here, same) refl, (λ n p. rw (sym same) p.1))
  | inr there ↦
      let later : find k es ≡ some out = rw (there) at e in
      let (counted, found) = held-remove x k es out later in
      (rw (there, counted) (omega arith), (λ n p. found j p.2))
]

pub ended-append : (x : ℕ) (a b : List Effect) → ended x (a ++ b) ≡ ended x a + ended x b
ended-append x [] b = omega arith
ended-append x (parse_into y t ∷ a) b = ended-append x a b
ended-append x (run_done y ∷ a) b = omega (arith, ended-append x a b)
ended-append x (delete y ∷ a) b = omega (arith, ended-append x a b)

ended-delete_object : (x a : ℕ) → x ≢ 0 → ended x (delete_object a) ≡ (if a == x then 1 else 0)
ended-delete_object x a some_object = elim (Bool-cases (a == 0)) [
  | inl null ↦
      let other : (a == x) ≡ false = ==_ne a x (λ e. some_object ((sym e) ∙ (==_iff a 0).0 null)) in
      rw (null, other) refl
  | inr there ↦ rw (there) (omega arith)
]

pub ended-delete_all : (x : ℕ) (es : Entries) → x ≢ 0 → ended x (delete_all es) ≡ held x es
unfolding held
ended-delete_all x [] some_object = refl
ended-delete_all x ((k, out) ∷ es) some_object =
    rw
      (
        ended-append x (delete_all es) (delete_object out.response ++ delete_object out.done),
        ended-append x (delete_object out.response) (delete_object out.done),
        ended-delete_object x out.response some_object,
        ended-delete_object x out.done some_object,
        ended-delete_all x es some_object,
      )
      (omega arith)

ended_run :
    (x a : ℕ) → x ≢ 0 → ended x (if a == 0 then [] else run_done a ∷ []) ≡ (if a == x then 1 else 0)
ended_run x a some_object = elim (Bool-cases (a == 0)) [
  | inl null ↦
      let other : (a == x) ≡ false = ==_ne a x (λ e. some_object ((sym e) ∙ (==_iff a 0).0 null)) in
      rw (null, other) refl
  | inr there ↦ rw (there) (omega arith)
]

pub ended-effects_of :
    (x : ℕ) (out : OutstandingCall) (answer : Option Bytes)
    → x ≢ 0
    → out.response ≢ 0
    → ended x (effects_of out answer)
      ≡ (if out.response == x then 1 else 0) + (if out.done == x then 1 else 0)
ended-effects_of x out none some_object some_response =
    let ran : List Effect = if out.done == 0 then [] else run_done out.done ∷ [] in
    let split = ended-append x ran (delete out.response ∷ []) in
    rw (==_ne out.response 0 some_response, split, ended_run x out.done some_object) (omega arith)
ended-effects_of x out (some b) some_object some_response =
    let ran : List Effect = if out.done == 0 then [] else run_done out.done ∷ [] in
    let split = ended-append x ran (delete out.response ∷ []) in
    rw (==_ne out.response 0 some_response, split, ended_run x out.done some_object) (omega arith)
