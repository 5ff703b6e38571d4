-- ===== src/Tcp/Client/Tests.antt =====
-- Runs of a client.
use serverlite.Base.{◌≡◌, refl, true, some, none, [], ◌∷◌, codes}
use serverlite.Base.Digits.{to_string}
use serverlite.Tcp.Connector.{handle_connect, einprogress, done, connected}
use serverlite.Tcp.Client.{
  Client, Conn, make_client, conn_name, connect, writable, remove_connection, destroy,
  connect_established, connect_destroyed_task, set_close_callback, force_close,
}
use serverlite.Tcp.Client.Reconnecting.{channel_reset, conn_of, reconnects}

abbrev client : Client
client = make_client (codes "c") (codes "h") 80 (record { channels = λ fd. none; calls = [] })

-- The name of a first connection.
first_name : conn_name client ≡ codes "c-h:80#1"
unfolding conn_name to_string
first_name = refl

abbrev first : Conn
first = record { fd = 7; name = codes "c-h:80#1" }

-- The destructor with the only pointer to a connection.
destroyed :
    (destroy true (record client { connection = some first })).calls
    ≡ set_close_callback first ∷ force_close first ∷ []
unfolding destroy
destroyed = refl

reconnects_example :
    (c0 : Client) × (c1 : Client) × (c2 : Client) × (c3 : Client) × (connect true 1000 7 einprogress
        client
      ≡ some c0)
    × (writable true c0 ≡ some c1)
    × (remove_connection 2000 8 done (conn_of 7 client) (channel_reset c1) ≡ some c2)
    × (writable true c2 ≡ some c3)
    × (c1.connection ≡ some (conn_of 7 client))
    × (c2.connection ≡ none)
    × (c3.connection ≡ some (conn_of 8 (record client { next_conn_id = 2 })))
    × (c3.calls
        ≡ connect_established (conn_of 7 client)
          ∷ connect_established (conn_of 8 (record client { next_conn_id = 2 }))
          ∷ [])
    × (c3.tasks ≡ connect_destroyed_task (conn_of 7 client) ∷ [])
    × (c3.connector.delays ≡ [])
unfolding handle_connect
reconnects_example = reconnects 1000 7 2000 8 einprogress done client refl refl refl refl refl

abbrev up : Client
up = record client {
  connector = record client.connector { state = connected; connect_flag = true };
  connection = some first;
}
