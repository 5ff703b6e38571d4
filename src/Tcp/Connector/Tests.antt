-- ===== src/Tcp/Connector/Tests.antt =====
-- Runs of a connector.
use serverlite.Base.{◌≡◌, refl, true, false, some, none, [], ◌∷◌}
use serverlite.Tcp.Connector.{
  Connector, make_connector, disconnected, connected, reset_channel_task, einprogress,
  start_in_loop, handle_write, handle_error, handle_connect,
}
use serverlite.Tcp.Connector.Retries.{attempt_ends}

abbrev started : Connector
started = record (make_connector (record { channels = λ fd. none; calls = [] })) {
  connect_flag = true;
}

attempt_ends_example :
    (u : Connector) × (w : Connector) × (e : Connector) × (start_in_loop 1000 7 einprogress started
      ≡ some u)
    × (handle_write true u ≡ some w)
    × (w.state ≡ connected)
    × (w.connections ≡ 7 ∷ [])
    × (w.delays ≡ [])
    × (handle_error u ≡ some e)
    × (handle_write false u ≡ some e)
    × (e.state ≡ disconnected)
    × (e.connections ≡ [])
    × (e.delays ≡ 1000 ∷ [])
    × (w.tasks ≡ reset_channel_task ∷ [])
    × (e.tasks ≡ w.tasks)
    × (w.poller.channels 7 ≡ none)
    × (e.poller.channels 7 ≡ none)
unfolding handle_connect
attempt_ends_example = attempt_ends 1000 7 einprogress started refl refl refl refl
