-- ===== src/Protobuf/Dispatcher.antt =====
-- src/slite/protobuf/ProtobufDispatcher.h. A descriptor and a user's callback are known by numbers.
-- GetDescriptor of a message, and whether dynamic_cast takes it for the class that belongs to a
-- descriptor, are parameters. `none` stands for a failed assert.
pub mod Dispatching
mod Tests
use serverlite.Base.{ℕ, Bool, true, false, Option, some, none, List, [], ◌∷◌, if◌then◌else◌}
use serverlite.Base.Maps.{Map, insert}
use serverlite.Protobuf.Runtime.{Runtime}

-- CallbackT<T>: the descriptor of T, and callback_.
pub record CallbackT : Type 0 where
  pub type : ℕ
  pub callback : ℕ

abbrev pub ProtobufDispatcher : Type 0
ProtobufDispatcher = Map CallbackT

-- ProtobufDispatcher::ProtobufDispatcher.
abbrev pub make_dispatcher : ProtobufDispatcher
make_dispatcher d = none

-- registerMessageCallback<T>: the callback stands under the descriptor of T.
pub register_message_callback : ℕ → ℕ → ProtobufDispatcher → ProtobufDispatcher
register_message_callback t cb callbacks = insert callbacks t (record { type = t; callback = cb })

module _ (rt : Runtime) (descriptor : rt.Message → ℕ) (casts : ℕ → rt.Message → Bool) where
  -- Which of the user's callbacks is called, with which message.
  pub data Handled : Type 0 where
    by_callback : ℕ → rt.Message → Handled
    by_default : rt.Message → Handled

  -- CallbackT::onMessage, with the asserts on down_pointer_cast.
  abbrev pub on_message_as : CallbackT → rt.Message → Option Handled
  on_message_as cb m = if casts cb.type m then some (by_callback cb.callback m) else none

  abbrev pub call_found : Option CallbackT → rt.Message → Option Handled
  call_found none m = some (by_default m)
  call_found (some cb) m = on_message_as cb m

  -- onProtobufMessage.
  pub on_protobuf_message : ProtobufDispatcher → rt.Message → Option Handled
  on_protobuf_message callbacks m = call_found (callbacks (descriptor m)) m
