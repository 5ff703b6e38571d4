-- ===== src/Tcp/Server/Tests.antt =====
-- Runs of a server with two loops of its own.
use serverlite.Base.{arith, List, ◌++◌, ◌≡◌, refl, true, some, [], ◌∷◌, codes}
use serverlite.Base.Digits.{to_string}
use serverlite.Tcp.Server.{
  make_server, set_thread_num, start, EventLoopThreadPool, Server, Conn, accepted, passing_errno,
  make_pool, start_pool, handle_recv, conn_name, connect_established_task,
}
use serverlite.Tcp.Server.Spreading.{accept_all, Spread, establishes, start-Spread}
use serverlite.Tcp.Server.Connections.{readable, applies, AllDistinct, applies-AllDistinct}

abbrev pool : EventLoopThreadPool
pool = record { base_loop = 0; num_threads = 2; next = 0; started = true; loops = 11 ∷ 12 ∷ [] }

started_pool : start_pool (11 ∷ 12 ∷ []) (record (make_pool 0) { num_threads = 2 }) ≡ some pool
unfolding start_pool
started_pool = refl

abbrev server : Server
server = record {
  name = codes "echo";
  host = codes "0.0.0.0";
  port = 80;
  pool = pool;
  connections = [];
  next_conn_id = 0;
  tasks = [];
}

first_name : conn_name server ≡ codes "echo-0.0.0.0:80#0"
unfolding conn_name to_string
first_name = refl

abbrev first : Conn
first = record { addr = 500; loop = 11; name = conn_name server }

abbrev with_first : Server
with_first = record server {
  pool = record pool { next = 1 };
  connections = first ∷ [];
  next_conn_id = 1;
  tasks = (11, connect_established_task first) ∷ [];
}

accepts_first : handle_recv 500 (accepted 7) server ≡ some with_first
unfolding handle_recv
accepts_first = refl

abbrev second : Conn
second = record { addr = 600; loop = 12; name = conn_name with_first }

abbrev with_both : Server
with_both = record with_first {
  pool = record pool { next = 2 };
  connections = first ∷ second ∷ [];
  next_conn_id = 2;
  tasks = (11, connect_established_task first) ∷ (12, connect_established_task second) ∷ [];
}

accepts_both :
    applies
      (readable 500 (accepted 7) ∷ readable 550 passing_errno ∷ readable 600 (accepted 8) ∷ [])
      server
    ≡ some with_both
unfolding handle_recv
accepts_both = refl

applies-AllDistinct_example : AllDistinct (first ∷ second ∷ [])
applies-AllDistinct_example =
    applies-AllDistinct
      (readable 500 (accepted 7) ∷ readable 550 passing_errno ∷ readable 600 (accepted 8) ∷ [])
      server with_both refl accepts_both

-- Three connections on two threads.
start-Spread_example :
    (s : Server) × (s' : Server) × (cs : List Conn) × (start
        (11 ∷ 12 ∷ [])
        (set_thread_num 2 (make_server (codes "0.0.0.0") (codes "echo") 80))
      ≡ some s)
    × (accept_all ((500, 7) ∷ (600, 8) ∷ (700, 9) ∷ []) s ≡ some s')
    × (s'.connections ≡ cs)
    × (s'.tasks ≡ s.tasks ++ establishes cs)
    × Spread (11 ∷ 12 ∷ []) 2 0 ((500, 7) ∷ (600, 8) ∷ (700, 9) ∷ []) cs
start-Spread_example =
    start-Spread (codes "0.0.0.0") (codes "echo") 80 2 (11 ∷ 12 ∷ [])
      ((500, 7) ∷ (600, 8) ∷ (700, 9) ∷ []) (omega arith) refl (omega arith)
