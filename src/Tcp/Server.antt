-- ===== src/Tcp/Server.antt =====
-- src/slite/TCPServer.h and TCPServer.cc, src/slite/EventLoopThreadPool.cc, and handleRecv of
-- src/slite/Acceptor.cc with accept of src/slite/TCPHandle.cc. A loop is a number, 0 for the
-- server's own; a connection is known by its address. The runTask and pushTask of a loop are
-- recorded per loop.
pub mod Pool
pub mod Connections
pub mod Spreading
mod Tests
use serverlite.Base.{
  ℕ, ◌+◌, Bool, true, false, not, Option, some, none, List, [], ◌∷◌, ◌++◌, Bytes, codes, length,
  if◌then◌else◌, ◌==◌, ◌-◌, ◌^◌, ltb,
}
use serverlite.Base.Digits.{to_string}
use serverlite.Base.Options.{◌>>=◌}

-- EventLoopThreadPool. `loops` are those that startLoop gave.
pub record EventLoopThreadPool : Type 0 where
  pub base_loop : ℕ
  pub num_threads : ℕ
  pub next : ℕ
  pub started : Bool
  pub loops : List ℕ

abbrev pub make_pool : ℕ → EventLoopThreadPool
make_pool base = record { base_loop = base; num_threads = 0; next = 0; started = false; loops = [] }

-- start: `fresh` are the loops of the new threads, as many as numThreads_.
pub start_pool : List ℕ → EventLoopThreadPool → Option EventLoopThreadPool
start_pool fresh p =
    if not p.started then some (record p { started = true; loops = p.loops ++ fresh }) else none

-- loops_.at(i), which throws out of range.
abbrev pub at : List ℕ → ℕ → Option ℕ
at [] i = none
at (x ∷ xs) i = if i == 0 then some x else at xs (i - 1)

next_of : List ℕ → ℕ → EventLoopThreadPool → Option (ℕ × EventLoopThreadPool)
next_of [] i p = some (p.base_loop, p)
next_of (x ∷ xs) i p = do l ← at (x ∷ xs) i; some (l, record p { next = i + 1 })

pub get_next_loop : EventLoopThreadPool → Option (ℕ × EventLoopThreadPool)
unfolding next_of
get_next_loop p = next_of p.loops (if p.next == p.num_threads then 0 else p.next) p

-- What accept(2) answers: a descriptor, an errno of the first group (EAGAIN, ECONNABORTED, EINTR,
-- EPROTO, EPERM, EMFILE), or another errno, at which LOG_FATAL ends the process.
pub data AcceptResult : Type 0 where
  accepted : ℕ → AcceptResult
  passing_errno fatal_errno : AcceptResult

-- TCPHandle::accept: the descriptor of the handle that it makes, or that it returns false. `none`
-- stands for the end of the process.
pub accept : AcceptResult → Option (Option ℕ)
accept (accepted fd) = some (some fd)
accept passing_errno = some none
accept fatal_errno = none

pub record Conn : Type 0 where
  pub addr : ℕ
  pub loop : ℕ
  pub name : Bytes

-- The tasks that the server hands to loops.
pub data Task : Type 0 where
  connect_established_task connect_destroyed_task remove_connection_task : Conn → Task
  listen_task : Task

pub record Server : Type 0 where
  pub name : Bytes
  pub host : Bytes
  pub port : ℕ
  pub pool : EventLoopThreadPool
  pub connections : List Conn
  pub next_conn_id : ℕ
  -- runTask and pushTask, as they are called: the loop and the task.
  pub tasks : List (ℕ × Task)

abbrev pub hand_over : ℕ → Task → Server → Server
hand_over loop t s = record s { tasks = s.tasks ++ (loop, t) ∷ [] }

-- TCPServer::TCPServer, on the loop 0.
abbrev pub make_server : Bytes → Bytes → ℕ → Server
make_server host name port = record {
  name = name;
  host = host;
  port = port;
  pool = make_pool 0;
  connections = [];
  next_conn_id = 0;
  tasks = [];
}

abbrev pub set_thread_num : ℕ → Server → Server
set_thread_num n s = record s { pool = record s.pool { num_threads = n } }

-- start: `fresh` are the loops of the pool's threads. none: the pool has started already.
pub start : List ℕ → Server → Option Server
unfolding start_pool
start fresh s = do
  p ← start_pool fresh s.pool
  some (hand_over 0 listen_task (record s { pool = p }))

-- The destructor. It resets each pointer before it calls getLoop through it: none.
pub destroy : List Conn → Server → Option Server
destroy [] s = some s
destroy (conn ∷ conns) s = none

-- name_ + "-" + host_ + ":" + to_string(port_) + "#" + to_string(nextConnId_).
pub conn_name : Server → Bytes
conn_name s =
    (s.name ++ (codes "-" ++ (s.host ++ (codes ":" ++ (to_string s.port ++ codes "#")))))
    ++ to_string s.next_conn_id

new_on : ℕ → ℕ × EventLoopThreadPool → Server → Server
unfolding conn_name
new_on addr (loop, pool) s =
    let conn : Conn = record { addr = addr; loop = loop; name = conn_name s } in
    hand_over loop (connect_established_task conn) (record s {
      pool = pool;
      next_conn_id = s.next_conn_id + 1;
      connections = s.connections ++ conn ∷ [];
    })

-- nextConnId_++ on an int: none where it overflows.
counted : Server → Option Server
counted s = if ltb (s.next_conn_id + 1) (2 ^ 31) then some s else none

-- newConnection, for a connection that is made at `addr`.
pub new_connection : ℕ → Server → Option Server
unfolding new_on get_next_loop counted
new_connection addr s = do r ← get_next_loop s.pool; t ← counted s; some (new_on addr r t)

-- removeConnection, in another thread than the server's loop or in that thread, where
-- removeConnectionInLoop follows at once.
pub remove_connection : Conn → Server → Server
remove_connection conn s = hand_over 0 (remove_connection_task conn) s

-- connections_.erase(std::find(...)), which compares pointers.
pub erase_conn : ℕ → List Conn → List Conn
erase_conn addr [] = []
erase_conn addr (c ∷ cs) = if c.addr == addr then cs else c ∷ erase_conn addr cs

-- removeConnectionInLoop.
pub remove_connection_in_loop : Conn → Server → Server
unfolding erase_conn
remove_connection_in_loop conn s =
    hand_over conn.loop (connect_destroyed_task conn)
      (record s { connections = erase_conn conn.addr s.connections })

-- The branches of handleRecv on the handle.
with_handle : ℕ → Option ℕ → Server → Option Server
unfolding new_connection
with_handle addr none s = some s
with_handle addr (some fd) s = new_connection addr s

-- Acceptor::handleRecv, with newConnection as its callback; `addr` is the new connection's.
pub handle_recv : ℕ → AcceptResult → Server → Option Server
unfolding with_handle accept
handle_recv addr r s = do handle ← accept r; with_handle addr handle s
