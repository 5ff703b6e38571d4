-- ===== src/Tcp/Connector/Cycle.antt =====
-- The connector of src/slite/Connector.cc once more, when its connection has closed.
use serverlite.Base.{ℕ, ◌≡◌, refl, true, some, none, [], ◌∷◌, ◌++◌}
use serverlite.Tcp.Connector.{
  Connector, ConnectResult, handle_connect, connected, disconnected, start, restart, handle_write,
  stop, stop_in_loop,
}
use serverlite.Tcp.Connector.Retries.{
  under_way, let_go, start_in_loop-under_way, remove_channel-under_way,
}

-- After the connection was handed over, with the task that resets the channel still to run.
abbrev pub handed_over : ℕ → ℕ → Connector → Connector
handed_over addr fd k = record (let_go addr fd k) {
  state = connected;
  connections = k.connections ++ fd ∷ [];
}

pub handle_write-under_way :
    (addr fd : ℕ) (k : Connector)
    → handle_write true (under_way addr fd k) ≡ some (handed_over addr fd k)
unfolding handle_write
handle_write-under_way addr fd k = rw (remove_channel-under_way addr fd k)

abbrev pub restarted : Connector → Connector
restarted k = record k { state = disconnected; retry_ms = 1000; connect_flag = true }

-- restart does not ask for connect_.
pub restart-under_way :
    (addr fd : ℕ) (r : ConnectResult) (k : Connector)
    → handle_connect r ≡ some true
    → k.channel ≡ none
    → k.poller.channels fd ≡ none
    → restart addr fd r k ≡ some (under_way addr fd (restarted k))
unfolding restart
restart-under_way addr fd r k progress fresh free =
    start_in_loop-under_way addr fd r (restarted k) refl progress fresh free

pub start-under_way :
    (addr fd : ℕ) (r : ConnectResult) (k : Connector)
    → handle_connect r ≡ some true
    → k.channel ≡ none
    → k.poller.channels fd ≡ none
    → start true addr fd r k ≡ some (under_way addr fd (record k { connect_flag = true }))
unfolding start
start-under_way addr fd r k progress fresh free =
    start_in_loop-under_way addr fd r (record k { connect_flag = true }) refl progress fresh free

pub stop_connected : (k : Connector) → k.state ≡ connected → stop_in_loop (stop k) ≡ some (stop k)
unfolding stop stop_in_loop
stop_connected k up = rw up
