-- ===== src/Rpc/Objects/Tests.antt =====
-- A client's channel, its calls and its end.
use serverlite.Base.{◌≡◌, refl, arith, some, none, [], ◌∷◌, codes, List}
use serverlite.Base.Maps.{insert, erase}
use serverlite.Rpc.{
  RpcChannel, OutstandingCall, call_method, on_rpc_message, on_typed, finish, error_answer,
  no_service, run_done, delete,
}
use serverlite.Rpc.Objects.{
  Entries, IsEntries, ChannelEvent, calls, receives, channel_event, channel_events, destroy, ended,
}
use serverlite.Rpc.Objects.Ending.{destroy-ended}

abbrev new_channel : RpcChannel
new_channel = record {
  next_id = 5;
  outstandings = λ k. none;
  services = none;
  sent = [];
  started = [];
  effects = [];
}

-- Two calls, of which the first is answered, and an answer to no call.
abbrev two_calls : List ChannelEvent
two_calls =
    calls (codes "S") (codes "m") [] 10 11
    ∷ calls (codes "S") (codes "m") [] 12 13
    ∷ receives (error_answer 5 no_service)
    ∷ receives (error_answer 9 no_service)
    ∷ []

abbrev first : OutstandingCall
first = record { response = 10; done = 11 }

abbrev second : OutstandingCall
second = record { response = 12; done = 13 }

abbrev after_calls : RpcChannel
after_calls = record new_channel {
  next_id = 7;
  outstandings = erase (insert (insert (λ k. none) 5 first) 6 second) 5;
  effects = run_done 11 ∷ delete 10 ∷ [];
}

to_after : channel_events two_calls new_channel ≡ some after_calls
unfolding channel_events channel_event call_method on_rpc_message on_typed finish
to_after = refl

-- The destructor deletes what the second call left.
destroyed :
    (destroy ((6, second) ∷ []) after_calls).effects
    ≡ run_done 11 ∷ delete 10 ∷ delete 12 ∷ delete 13 ∷ []
unfolding destroy
destroyed = refl

destroy-ended_example :
    (entries : Entries) × IsEntries 7 after_calls.outstandings entries
    × (ended 12 (destroy entries after_calls).effects ≡ 1)
destroy-ended_example =
    destroy-ended 12 two_calls new_channel after_calls (λ e. omega arith) refl refl (omega arith)
      ((λ e. omega arith), ((λ e. omega arith), tt)) to_after
