-- ===== src/Tcp/Client/Reconnecting.antt =====
-- A client of src/slite/TCPClient.cc whose connection closes.
use serverlite.Base.{
  ℕ, ◌+◌, ◌≡◌, refl, arith, true, false, some, none, [], ◌∷◌, ◌++◌, length, drop-append_exact,
  append_assoc,
}
use serverlite.Base.Maps.{Map, insert, erase}
use serverlite.Tcp.Connector as Connecting
use serverlite.Tcp.Connector.{
  Connector, ConnectResult, handle_connect, States, connecting_state, connected, disconnected,
  start_in_loop, restart, handle_write, reset_channel, stop_in_loop,
}
use serverlite.Tcp.Connector.Retries.{under_way}
use serverlite.Tcp.Connector.Cycle.{
  handed_over, handle_write-under_way, restarted, restart-under_way, start-under_way,
  stop_connected,
}
use serverlite.Tcp.Client.{
  Client, Conn, connect_established, connect_destroyed_task, conn_name, stop, new_connection,
  writable, connect, push_task, remove_connection,
}

-- The task that the connector pushed when its channel became writable.
abbrev pub channel_reset : Client → Client
channel_reset c = record c { connector = reset_channel c.connector }

writable-under_way :
    (addr fd : ℕ) (c : Client)
    → writable true (record c { connector = under_way addr fd c.connector })
      ≡ some (new_connection fd (record c { connector = handed_over addr fd c.connector }))
unfolding writable
writable-under_way addr fd c = rw (
  handle_write-under_way addr fd c.connector,
  drop-append_exact (length c.connector.connections) c.connector.connections (fd ∷ []) refl,
)

-- A new connection, its channel reset, and then the connection closed with another attempt begun.
abbrev pub first_up : ℕ → ℕ → Client → Client
first_up addr fd c =
    channel_reset (new_connection fd (record c { connector = handed_over addr fd c.connector }))

abbrev pub conn_of : ℕ → Client → Conn
conn_of fd c = record { fd = fd; name = conn_name c }

still_free : (m : Map ℕ) (addr fd fd' : ℕ) → m fd' ≡ none → erase (insert m fd addr) fd fd' ≡ none
still_free m addr fd fd' free = ground arith

remove_connection-first_up :
    (addr fd addr' fd' : ℕ) (r' : ConnectResult) (c : Client)
    → handle_connect r' ≡ some true
    → c.connector.poller.channels fd' ≡ none
    → remove_connection addr' fd' r' (conn_of fd c) (first_up addr fd c)
      ≡ some (record (first_up addr fd c) {
        connection = none;
        tasks = c.tasks ++ connect_destroyed_task (conn_of fd c) ∷ [];
        connector = under_way addr' fd' (restarted (first_up addr fd c).connector);
      })
unfolding remove_connection new_connection
remove_connection-first_up addr fd addr' fd' r' c progress free = rw (
    restart-under_way addr' fd' r' (first_up addr fd c).connector progress refl
      (still_free c.connector.poller.channels addr fd fd' free))

abbrev next_client : Client → Client
next_client c = record c { next_conn_id = c.next_conn_id + 1 }

-- The client when the attempt after the first connection is under way.
abbrev second_attempt : ℕ → ℕ → Client → Client
second_attempt addr fd c = record (first_up addr fd c) {
  connection = none;
  tasks = c.tasks ++ connect_destroyed_task (conn_of fd c) ∷ [];
  connector = restarted (first_up addr fd c).connector;
}

abbrev starting : Client → Client
starting c = record c { connector = record c.connector { connect_flag = true } }

-- A client with no channel connects, with ::connect taking the attempt on; its channel becomes
-- writable, the connection is made, closes, and the attempt that follows comes to a connection as
-- well, each attempt on a descriptor that is not in channels_. No assert fails; each connection is
-- told once that it is established, the two with numbers that follow each other in their names, the
-- first one is destroyed once, and no timer is set to wait.
pub reconnects :
    (addr fd addr' fd' : ℕ) (r r' : ConnectResult) (c : Client)
    → handle_connect r ≡ some true
    → handle_connect r' ≡ some true
    → c.connector.channel ≡ none
    → c.connector.poller.channels fd ≡ none
    → c.connector.poller.channels fd' ≡ none
    → (c0 : Client) × (c1 : Client) × (c2 : Client) × (c3 : Client) × (connect true addr fd r c
        ≡ some c0)
      × (writable true c0 ≡ some c1)
      × (remove_connection addr' fd' r' (conn_of fd c) (channel_reset c1) ≡ some c2)
      × (writable true c2 ≡ some c3)
      × (c1.connection ≡ some (conn_of fd c))
      × (c2.connection ≡ none)
      × (c3.connection ≡ some (conn_of fd' (next_client c)))
      × (c3.calls
          ≡ c.calls
            ++ connect_established (conn_of fd c)
              ∷ connect_established (conn_of fd' (next_client c))
              ∷ [])
      × (c3.tasks ≡ c.tasks ++ connect_destroyed_task (conn_of fd c) ∷ [])
      × (c3.connector.delays ≡ c.connector.delays)
unfolding new_connection conn_name connect
reconnects addr fd addr' fd' r r' c progress progress' fresh free free' =
    let s = starting c in
    (
      record c { connector = under_way addr fd s.connector },
      new_connection fd (record c { connector = handed_over addr fd s.connector }),
      record (second_attempt addr fd s) {
        connector = under_way addr' fd' (second_attempt addr fd s).connector;
      },
      new_connection fd' (record (second_attempt addr fd s) {
        connector = handed_over addr' fd' (second_attempt addr fd s).connector;
      }),
      rw (start-under_way addr fd r c.connector progress fresh free),
      writable-under_way addr fd s,
      remove_connection-first_up addr fd addr' fd' r' s progress' free',
      writable-under_way addr' fd' (second_attempt addr fd s),
      refl,
      refl,
      refl,
      append_assoc c.calls _ _,
      refl,
      refl,
    )

-- A client that was told to stop while it has a connection, with stopInLoop run: when the connection
-- closes, another attempt begins all the same, if ::connect takes it on and the connector has no
-- channel and the new descriptor is not in channels_.
stop_reconnects :
    (addr fd : ℕ) (r : ConnectResult) (conn : Conn) (c : Client)
    → handle_connect r ≡ some true
    → c.connector.state ≡ connected
    → c.connector.channel ≡ none
    → c.connector.poller.channels fd ≡ none
    → (k : Connector) × (c' : Client) × (stop_in_loop (stop c).connector ≡ some k)
      × (k.connect_flag ≡ false)
      × (remove_connection addr fd r conn (record (stop c) { connector = k }) ≡ some c')
      × (c'.connector.state ≡ connecting_state)
      × (c'.connector.connect_flag ≡ true)
unfolding stop remove_connection Connecting.stop
stop_reconnects addr fd r conn c progress up fresh free =
    let k = (stop c).connector in
    (
      k,
      push_task (connect_destroyed_task conn)
          (record c { connection = none; connector = under_way addr fd (restarted k) }),
      stop_connected c.connector up,
      refl,
      rw (restart-under_way addr fd r k progress fresh free),
      refl,
      refl,
    )
