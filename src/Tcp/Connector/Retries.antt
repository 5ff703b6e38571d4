-- ===== src/Tcp/Connector/Retries.antt =====
-- Attempts to connect: how long the connector waits between them, and how one ends.
use serverlite.Base.{
  ℕ, ◌+◌, ◌*◌, ◌^◌, ◌≡◌, refl, arith, true, false, Option, some, none, List, [], ◌∷◌, ◌++◌, min,
  append_assoc, append-nil,
}
use serverlite.Base.Maps.{contains, contains-insert_self, erase_self, erase, insert}
use serverlite.Base.Options.{◌>>=◌}
use serverlite.Reactor.Channel.{add, new, ctl_add, ctl_del, enable_send, disable_all, remove}
use native.Mathlib.Numerals.{unary_clauses}
use serverlite.Tcp.Connector.{
  Connector, disconnected, connecting_state, connected, ConnectResult, handle_connect, retry,
  connect, start_in_loop, reset_channel_task, remove_channel, reset_channel, stop, stop_in_loop,
  handle_write, handle_error,
}

-- One attempt after another, each on a new descriptor, when the timer of the last one expires.
abbrev pub attempts : ℕ → List (ℕ × ConnectResult) → Connector → Option Connector
attempts addr [] c = some c
attempts addr ((fd, r) ∷ rs) c = start_in_loop addr fd r c >>= attempts addr rs

abbrev pub AllRefused : List (ℕ × ConnectResult) → Type 0
AllRefused [] = Unit
AllRefused ((fd, r) ∷ rs) = (handle_connect r ≡ some false) × AllRefused rs

-- The wait after the k-th failure in a row.
abbrev pub backoff : ℕ → ℕ
backoff k = min (1000 * 2 ^ k) 100000

abbrev pub backoffs : ℕ → List (ℕ × ConnectResult) → List ℕ
backoffs k [] = []
backoffs k (r ∷ rs) = backoff k ∷ backoffs (k + 1) rs

backoff_double : (k : ℕ) → min (backoff k * 2) 100000 ≡ backoff (k + 1)
backoff_double k = simp unary_clauses (omega arith)

start_in_loop_refused :
    (addr fd : ℕ) (r : ConnectResult) (c : Connector)
    → c.connect_flag ≡ true
    → handle_connect r ≡ some false
    → start_in_loop addr fd r c ≡ some (retry (record c { handle = some fd }))
unfolding start_in_loop connect
start_in_loop_refused addr fd r c on refused = rw (on, refused)

-- Attempts that ::connect refuses, in a row, from the k-th on: the waits are 1000 ms, doubled each
-- time and never above 100000 ms, and the connector stays ready for the next attempt.
pub attempts-backoffs :
    (addr k : ℕ) (rs : List (ℕ × ConnectResult)) (c : Connector)
    → AllRefused rs
    → c.connect_flag ≡ true
    → c.max_retry_ms ≡ 100000
    → c.retry_ms ≡ backoff k
    → (c' : Connector) × (attempts addr rs c ≡ some c')
      × (c'.delays ≡ c.delays ++ backoffs k rs)
      × (c'.channel ≡ c.channel)
      × (c'.connections ≡ c.connections)
unfolding retry
attempts-backoffs addr k [] c all on m e =
    (c, refl, ground (arith, append-nil c.delays), refl, refl)
attempts-backoffs addr k ((fd, r) ∷ rs) c all on m e =
    let c1 = retry (record c { handle = some fd }) in
    let (c', q, d, ch, cn) =
      attempts-backoffs addr (k + 1) rs c1 all.1 (ground arith) (ground arith)
        (ground (arith, backoff_double k)) in
    (
      c',
      rw (start_in_loop_refused addr fd r c on all.0) q,
      ground (arith, append_assoc c.delays (backoff k ∷ []) (backoffs (k + 1) rs)),
      ground arith,
      ground arith,
    )

-- The connector while ::connect is under way on a new descriptor.
abbrev pub under_way : ℕ → ℕ → Connector → Connector
under_way addr fd c = record c {
  handle = some fd;
  state = connecting_state;
  channel = some (record {
    addr = addr;
    fd = fd;
    events = record { recv_event = false; send_event = true };
    tied = false;
    state = add;
  });
  poller = record {
    channels = insert c.poller.channels fd addr;
    calls =
        record { op = ctl_add; fd = fd; events = record { recv_event = false; send_event = true } }
        ∷ c.poller.calls;
  };
}

pub start_in_loop-under_way :
    (addr fd : ℕ) (r : ConnectResult) (c : Connector)
    → c.connect_flag ≡ true
    → handle_connect r ≡ some true
    → c.channel ≡ none
    → c.poller.channels fd ≡ none
    → start_in_loop addr fd r c ≡ some (under_way addr fd c)
unfolding start_in_loop connect enable_send
start_in_loop-under_way addr fd r c on progress fresh free =
    rw (on, progress, fresh, free, contains)

-- After removeChannel, with its task still to run.
abbrev pub let_go : ℕ → ℕ → Connector → Connector
let_go addr fd c = record (under_way addr fd c) {
  channel = some (record {
    addr = addr;
    fd = fd;
    events = record { recv_event = false; send_event = false };
    tied = false;
    state = new;
  });
  poller = record {
    channels = erase (insert c.poller.channels fd addr) fd;
    calls =
        record { op = ctl_del; fd = fd; events = record { recv_event = false; send_event = false } }
        ∷ (under_way addr fd c).poller.calls;
  };
  tasks = c.tasks ++ reset_channel_task ∷ [];
}

pub remove_channel-under_way :
    (addr fd : ℕ) (c : Connector) → remove_channel (under_way addr fd c) ≡ some (let_go addr fd c)
unfolding remove_channel disable_all remove
remove_channel-under_way addr fd c = rw (contains-insert_self c.poller.channels fd addr)

-- An attempt that ::connect takes on, on a new descriptor that is not in channels_. If the channel
-- becomes writable and getsockopt succeeds, the connection is handed over once, under that
-- descriptor; if it fails, or an error is reported first, none is, and the next attempt waits
-- retryMs_. Either way no assert fails, and once the pushed task has run the connector has no
-- channel and the descriptor is not in channels_.
pub attempt_ends :
    (addr fd : ℕ) (r : ConnectResult) (c : Connector)
    → c.connect_flag ≡ true
    → handle_connect r ≡ some true
    → c.channel ≡ none
    → c.poller.channels fd ≡ none
    → (u : Connector) × (w : Connector) × (e : Connector) × (start_in_loop addr fd r c ≡ some u)
      × (handle_write true u ≡ some w)
      × (w.state ≡ connected)
      × (w.connections ≡ c.connections ++ fd ∷ [])
      × (w.delays ≡ c.delays)
      × (handle_error u ≡ some e)
      × (handle_write false u ≡ some e)
      × (e.state ≡ disconnected)
      × (e.connections ≡ c.connections)
      × (e.delays ≡ c.delays ++ c.retry_ms ∷ [])
      × (w.tasks ≡ c.tasks ++ reset_channel_task ∷ [])
      × (e.tasks ≡ w.tasks)
      × (w.poller.channels fd ≡ none)
      × (e.poller.channels fd ≡ none)
unfolding handle_write handle_error retry
attempt_ends addr fd r c on progress fresh free =
    let gone = erase_self (insert c.poller.channels fd addr) fd in
    let removed = remove_channel-under_way addr fd c in
    (
      under_way addr fd c,
      record (let_go addr fd c) { state = connected; connections = c.connections ++ fd ∷ [] },
      retry (let_go addr fd c),
      start_in_loop-under_way addr fd r c on progress fresh free,
      rw removed,
      refl,
      refl,
      refl,
      rw removed,
      rw removed,
      rw on,
      rw on,
      rw on,
      refl,
      rw on,
      gone,
      rw on gone,
    )

-- stop() while an attempt is under way leaves the state CONNECTING. A second stop(), after the tasks
-- of the first have run, its stopInLoop and the one that resets the channel, follows the null channel
-- pointer.
pub stop_twice :
    (addr fd : ℕ) (r : ConnectResult) (c : Connector)
    → c.connect_flag ≡ true
    → handle_connect r ≡ some true
    → c.channel ≡ none
    → c.poller.channels fd ≡ none
    → (u : Connector) × (c' : Connector) × (start_in_loop addr fd r c ≡ some u)
      × (stop_in_loop (stop u) ≡ some c')
      × (c'.state ≡ connecting_state)
      × (stop_in_loop (stop (reset_channel c')) ≡ none)
unfolding stop stop_in_loop remove_channel retry
stop_twice addr fd r c on progress fresh free = (
  under_way addr fd c,
  let_go addr fd (stop c),
  start_in_loop-under_way addr fd r c on progress fresh free,
  rw (remove_channel-under_way addr fd (stop c)),
  refl,
  refl,
)
