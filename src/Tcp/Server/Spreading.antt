-- ===== src/Tcp/Server/Spreading.antt =====
-- How a server of src/slite/TCPServer.cc that has threads spreads its connections over their loops.
use serverlite.Base.{
  ℕ, ◌+◌, ◌%◌, ◌^◌, lt→ltb, ◌≤◌, ◌<◌, ◌≡◌, refl, sym, ap, ◌∙◌, arith, Option, some, List, [], ◌∷◌,
  ◌++◌, Bytes, length, map, append_assoc, append-nil, true,
}
use serverlite.Base.Options.{◌>>=◌}
use serverlite.Tcp.Server.{
  EventLoopThreadPool, at, get_next_loop, Server, Conn, Task, connect_established_task,
  new_connection, counted, new_on, conn_name, handle_recv, accept, accepted, listen_task,
  make_server, set_thread_num, start,
}
use serverlite.Tcp.Server.Pool.{get_next_loop_lem}
use native.Mathlib.Nat.{mod-add-mod, mod-lt}

-- Connections that are accepted one after the other: the address of each, and its descriptor.
abbrev pub accept_all : List (ℕ × ℕ) → Server → Option Server
accept_all [] s = some s
accept_all ((addr, fd) ∷ arrivals) s = handle_recv addr (accepted fd) s >>= accept_all arrivals

-- The k-th of the connections has the loop that stands at k, counted round.
abbrev pub Spread : List ℕ → ℕ → ℕ → List (ℕ × ℕ) → List Conn → Type 0
Spread loops n k [] [] = Unit
Spread loops n k ((addr, fd) ∷ arrivals) (c ∷ cs) =
    (c.addr ≡ addr) × (at loops (k % n) ≡ some c.loop) × Spread loops n (k + 1) arrivals cs
Spread loops n k _ _ = ⊥

-- connectEstablished of each, on its loop.
abbrev pub establishes : List Conn → List (ℕ × Task)
establishes cs = map (λ c. (c.loop, connect_established_task c)) cs

new_connection_lem :
    (addr fd : ℕ) (s : Server) (l : ℕ) (p : EventLoopThreadPool)
    → get_next_loop s.pool ≡ some (l, p)
    → s.next_conn_id + 1 < 2 ^ 31
    → handle_recv addr (accepted fd) s ≡ some (new_on addr (l, p) s)
unfolding handle_recv accept new_connection counted
new_connection_lem addr fd s l p e room = rw (e, lt→ltb (s.next_conn_id + 1) (2 ^ 31) room) refl

accept_all-Spread :
    (arrivals : List (ℕ × ℕ)) (k : ℕ) (s : Server)
    → 0 < s.pool.num_threads
    → length s.pool.loops ≡ s.pool.num_threads
    → s.pool.next ≤ s.pool.num_threads
    → k % s.pool.num_threads ≡ s.pool.next % s.pool.num_threads
    → s.next_conn_id + length arrivals < 2 ^ 31
    → (s' : Server) × (cs : List Conn) × (accept_all arrivals s ≡ some s')
      × (s'.connections ≡ s.connections ++ cs)
      × (s'.tasks ≡ s.tasks ++ establishes cs)
      × Spread s.pool.loops s.pool.num_threads k arrivals cs
unfolding new_on
accept_all-Spread [] k s h full le round room =
    (s, [], refl, sym (append-nil s.connections), sym (append-nil s.tasks), tt)
accept_all-Spread ((addr, fd) ∷ arrivals) k s h full le round room =
    let n = s.pool.num_threads in
    let (l, e, g) = get_next_loop_lem s.pool h full le in
    let lt = mod-lt s.pool.next h in
    let p = record s.pool { next = s.pool.next % n + 1 } in
    let c : Conn = record { addr = addr; loop = l; name = conn_name s } in
    let s1 = new_on addr (l, p) s in
    let later : (k + 1) % n ≡ (s.pool.next % n + 1) % n =
      sym (mod-add-mod k n 1) ∙ ap (λ i. (i + 1) % n) round in
    let (s', cs, went, conns, tasks, spread) =
      accept_all-Spread arrivals (k + 1) s1 h full (omega arith) later (omega arith) in
    (
      s',
      c ∷ cs,
      ap (λ (o : Option Server). o >>= accept_all arrivals)
            (new_connection_lem addr fd s l p g (omega arith))
          ∙ went,
      conns ∙ append_assoc s.connections (c ∷ []) cs,
      tasks ∙ append_assoc s.tasks _ (establishes cs),
      (refl, ap (at s.pool.loops) round ∙ e, spread),
    )

-- A new server that is given a number of threads, at least one, and started, and then accepts fewer
-- than 2^31 connections: it starts, and every connection is made; the k-th, counted from 0, is given to the
-- k-th loop, counted round, which is told to establish it; and all of them stand in connections_
-- in the order in which they came.
pub start-Spread :
    (host name : Bytes) (port n : ℕ) (fresh : List ℕ) (arrivals : List (ℕ × ℕ))
    → 0 < n
    → length fresh ≡ n
    → length arrivals < 2 ^ 31
    → (s : Server) × (s' : Server) × (cs : List Conn) × (start fresh
          (set_thread_num n (make_server host name port))
        ≡ some s)
      × (accept_all arrivals s ≡ some s')
      × (s'.connections ≡ cs)
      × (s'.tasks ≡ s.tasks ++ establishes cs)
      × Spread fresh n 0 arrivals cs
unfolding start
start-Spread host name port n fresh arrivals h full room =
    let s0 = set_thread_num n (make_server host name port) in
    let s1 = record s0 {
      pool = record s0.pool { started = true; loops = fresh };
      tasks = (0, listen_task) ∷ [];
    } in
    let (s', cs, went, conns, tasks, spread) =
      accept_all-Spread arrivals 0 s1 h full (omega arith) refl (omega (arith, room)) in
    (s1, s', cs, refl, went, conns, tasks, spread)
