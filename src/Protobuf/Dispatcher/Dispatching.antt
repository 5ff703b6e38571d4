-- ===== src/Protobuf/Dispatcher/Dispatching.antt =====
-- The dispatcher of src/slite/protobuf/ProtobufDispatcher.h as the message callback of ProtobufCodec.
use serverlite.Base.{
  ℕ, Bool, true, Option, some, none, List, [], ◌∷◌, map, concat, ◌≡◌, refl, ap, if◌then◌else◌, ◌==◌,
  ==_iff, Bool-cases, inl, inr,
}
use serverlite.Protobuf.Runtime.{Runtime}
use serverlite.Protobuf.Codec.{Event, message, error, on_message, fill_empty_buffer}
use serverlite.Protobuf.Codec.RoundTrip.{AllSendable, on_message_sent}
use serverlite.Protobuf.Dispatcher.{
  CallbackT, ProtobufDispatcher, make_dispatcher, register_message_callback, Handled, by_callback,
  by_default, call_found, on_protobuf_message,
}

-- Registrations, the first one first.
abbrev pub register_all : List (ℕ × ℕ) → ProtobufDispatcher → ProtobufDispatcher
register_all [] d = d
register_all ((t, cb) ∷ regs) d = register_all regs (register_message_callback t cb d)

-- The last callback that was registered for a descriptor, or `first`.
abbrev pub last_for : ℕ → Option ℕ → List (ℕ × ℕ) → Option ℕ
last_for t first [] = first
last_for t first ((u, cb) ∷ regs) = last_for t (if u == t then some cb else first) regs

-- A callback as it stands under its descriptor.
abbrev typed : ℕ → Option ℕ → Option CallbackT
typed t none = none
typed t (some cb) = some (record { type = t; callback = cb })

register-typed :
    (u cb : ℕ) (d : ProtobufDispatcher) (t : ℕ) (first : Option ℕ)
    → d t ≡ typed t first
    → register_message_callback u cb d t ≡ typed t (if u == t then some cb else first)
unfolding register_message_callback
register-typed u cb d t first e = elim (Bool-cases (u == t)) [
  | inl same ↦
      let p = (==_iff u t).0 same in rw same (ap (λ x. some (record { type = x; callback = cb })) p)
  | inr other ↦ rw other e
]

register_all-typed :
    (regs : List (ℕ × ℕ)) (d : ProtobufDispatcher) (t : ℕ) (first : Option ℕ)
    → d t ≡ typed t first
    → register_all regs d t ≡ typed t (last_for t first regs)
register_all-typed [] d t first e = e
register_all-typed ((u, cb) ∷ regs) d t first e =
    register_all-typed regs (register_message_callback u cb d) t _ (register-typed u cb d t first e)

module _ (rt : Runtime) (descriptor : rt.Message → ℕ) (casts : ℕ → rt.Message → Bool) where
  abbrev pub handled : Option ℕ → rt.Message → Handled rt descriptor casts
  handled none m = by_default m
  handled (some cb) m = by_callback cb m

  -- The events of the codec, each handed to the dispatcher; an error goes to another callback.
  pub dispatch : ProtobufDispatcher → List (Event rt) → List (Option (Handled rt descriptor casts))
  dispatch d [] = []
  dispatch d (message m ∷ es) = on_protobuf_message rt descriptor casts d m ∷ dispatch d es
  dispatch d (error k buf ∷ es) = dispatch d es

  call_found-typed :
      (m : rt.Message) (o : Option ℕ)
      → casts (descriptor m) m ≡ true
      → call_found rt descriptor casts (typed (descriptor m) o) m ≡ some (handled o m)
  call_found-typed m none own = refl
  call_found-typed m (some cb) own = rw own

  -- What onProtobufMessage does after any registrations.
  pub registered_call :
      (regs : List (ℕ × ℕ)) (m : rt.Message)
      → casts (descriptor m) m ≡ true
      → on_protobuf_message rt descriptor casts (register_all regs make_dispatcher) m
        ≡ some (handled (last_for (descriptor m) none regs) m)
  unfolding on_protobuf_message
  registered_call regs m own = rw (
    register_all-typed regs make_dispatcher (descriptor m) none refl,
    call_found-typed m (last_for (descriptor m) none regs) own,
  )

  -- dynamic_cast takes each of the messages for the class of its own descriptor.
  abbrev pub AllOwn : List rt.Message → Type 0
  AllOwn [] = Unit
  AllOwn (m ∷ ms) = (casts (descriptor m) m ≡ true) × AllOwn ms

  dispatch_messages :
      (regs : List (ℕ × ℕ)) (ms : List rt.Message)
      → AllOwn ms
      → dispatch (register_all regs make_dispatcher) (map message ms)
        ≡ map (λ m. some (handled (last_for (descriptor m) none regs) m)) ms
  unfolding dispatch
  dispatch_messages regs [] own = refl
  dispatch_messages regs (m ∷ ms) own =
      rw (registered_call regs m own.0, dispatch_messages regs ms own.1)

  -- Messages that can be sent, encoded one after the other and read back by the codec, in front of
  -- a dispatcher with any callbacks registered, any of them more than once: no assert on a cast
  -- fails, and each message goes, in order, to the callback that was registered last for its
  -- descriptor, or to the default one if none was; where dynamic_cast takes each message for the
  -- class of its own descriptor.
  pub dispatch-on_message :
      (regs : List (ℕ × ℕ)) (ms : List rt.Message)
      → AllSendable rt ms
      → AllOwn ms
      → dispatch
          (register_all regs make_dispatcher)
          (on_message rt (concat (map (fill_empty_buffer rt) ms))).0
        ≡ map (λ m. some (handled (last_for (descriptor m) none regs) m)) ms
  dispatch-on_message regs ms sendable own =
      rw (on_message_sent rt ms sendable) (dispatch_messages regs ms own)
