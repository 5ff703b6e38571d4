-- ===== src/Tcp/Client.antt =====
-- src/slite/TCPClient.h and TCPClient.cc over the connector of src/slite/Connector.cc. A connection is
-- known by its descriptor and its name; what the client calls on it, and the tasks that it pushes,
-- are recorded. `none` stands for what it stands for in the connector. nextConnId_ is an int, and a
-- natural number here: it stays one for fewer than 2^31 connections.
pub mod Reconnecting
mod Tests
use serverlite.Base.{
  ℕ, ◌+◌, Bool, true, false, Option, some, none, List, [], ◌∷◌, ◌++◌, Bytes, codes, length, drop,
  if◌then◌else◌,
}
use serverlite.Base.Digits.{to_string}
use serverlite.Base.Options.{◌>>=◌}
use serverlite.Reactor.Channel.{Poller}
use serverlite.Tcp.Connector as Connecting
use serverlite.Tcp.Connector.{
  Connector, make_connector, ConnectResult, start, restart, handle_write,
}

pub record Conn : Type 0 where
  pub fd : ℕ
  pub name : Bytes

-- What the client calls on a connection. The close callback that a new one has is
-- removeConnection; the destructor sets the one that only pushes connectDestroyed.
pub data Call : Type 0 where
  connect_established shutdown set_close_callback force_close : Conn → Call

-- The task that the client pushes, and the timer that the destructor sets.
pub data Task : Type 0 where
  connect_destroyed_task : Conn → Task
  remove_connector_after_1s : Task

pub record Client : Type 0 where
  pub name : Bytes
  pub host : Bytes
  pub port : ℕ
  pub connector : Connector
  pub connection : Option Conn
  pub next_conn_id : ℕ
  pub calls : List Call
  pub tasks : List Task

-- TCPClient::TCPClient.
abbrev pub make_client : Bytes → Bytes → ℕ → Poller → Client
make_client name host port p = record {
  name = name;
  host = host;
  port = port;
  connector = make_connector p;
  connection = none;
  next_conn_id = 1;
  calls = [];
  tasks = [];
}

abbrev pub call : Call → Client → Client
call k c = record c { calls = c.calls ++ k ∷ [] }

abbrev pub push_task : Task → Client → Client
push_task t c = record c { tasks = c.tasks ++ t ∷ [] }

abbrev pub with_connector : Client → Option Connector → Option Client
with_connector c none = none
with_connector c (some k) = some (record c { connector = k })

-- connect: the answers of a first attempt in the loop's thread.
pub connect : Bool → ℕ → ℕ → ConnectResult → Client → Option Client
connect in_loop addr fd r c = with_connector c (start in_loop addr fd r c.connector)

abbrev shut : Option Conn → Client → Client
shut none c = c
shut (some conn) c = call (shutdown conn) c

-- disconnect.
pub disconnect : Client → Client
disconnect c = shut c.connection c

-- stop.
pub stop : Client → Client
stop c = record c { connector = Connecting.stop c.connector }

-- name_ + "-" + host_ + ":" + to_string(port_) + "#" + to_string(nextConnId_++).
pub conn_name : Client → Bytes
conn_name c =
    (c.name ++ (codes "-" ++ (c.host ++ (codes ":" ++ (to_string c.port ++ codes "#")))))
    ++ to_string c.next_conn_id

-- newConnection, for the handle on `fd`.
pub new_connection : ℕ → Client → Client
unfolding conn_name
new_connection fd c =
    let conn : Conn = record { fd = fd; name = conn_name c } in
    call (connect_established conn)
      (record c { connection = some conn; next_conn_id = c.next_conn_id + 1 })

-- handleWrite of the connector, with newConnection as its callback: the connections that it handed
-- over are those that were not there before.
abbrev with_new : List ℕ → Client → Client
with_new [] c = c
with_new (fd ∷ fds) c = with_new fds (new_connection fd c)

pub writable : Bool → Client → Option Client
unfolding new_connection
writable ok c = handle_write ok c.connector >>= λ k.
    some
      (with_new (drop (length c.connector.connections) k.connections) (record c { connector = k }))

-- removeConnection, when `conn` has closed: `addr`, `fd` and `r` are what the attempt meets that
-- restart begins.
pub remove_connection : ℕ → ℕ → ConnectResult → Conn → Client → Option Client
remove_connection addr fd r conn c =
    with_connector (push_task (connect_destroyed_task conn) (record c { connection = none }))
      (restart addr fd r c.connector)

abbrev destroy_with : Bool → Option Conn → Client → Client
destroy_with unique (some conn) c =
    let c1 = call (set_close_callback conn) c in if unique then call (force_close conn) c1 else c1
destroy_with unique none c =
    push_task remove_connector_after_1s (record c { connector = Connecting.stop c.connector })

-- The destructor: `unique` is whether the client has the only pointer to its connection.
pub destroy : Bool → Client → Client
destroy unique c = destroy_with unique c.connection c
