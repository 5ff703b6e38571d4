-- ===== src/Tcp/Connector.antt =====
-- src/slite/Connector.h and Connector.cc, with connect of src/slite/TCPHandle.cc. `none` stands for
-- a failed assert, a null pointer that is followed, and the end of the process. The descriptor of a
-- new socket, what ::connect answers and whether getsockopt succeeds are arguments.
pub mod Retries
pub mod Cycle
mod Tests
use serverlite.Base.{
  ℕ, ◌*◌, Bool, true, false, not, Option, some, none, List, [], ◌∷◌, ◌++◌, if◌then◌else◌, min,
}
use serverlite.Base.Options.{◌>>=◌}
use serverlite.Reactor.Channel.{Channel, Poller, make_channel, enable_send, disable_all, remove}

pub data States : Type 0 where
  disconnected connecting_state connected : States

abbrev pub is_connecting : States → Bool
is_connecting connecting_state = true
is_connecting _ = false

-- The errno of ::connect, in the classes of the switch; `done` is the answer 0.
pub data ConnectResult : Type 0 where
  done einprogress eintr eisconn : ConnectResult
  eagain eaddrinuse eaddrnotavail econnrefused enetunreach : ConnectResult
  fatal : ConnectResult

-- TCPHandle::connect: whether a connection is under way or made. `none` stands for the end of the
-- process, in LOG_FATAL.
unfoldable pub handle_connect : ConnectResult → Option Bool
handle_connect done = some true
handle_connect einprogress = some true
handle_connect eintr = some true
handle_connect eisconn = some true
handle_connect eagain = some false
handle_connect eaddrinuse = some false
handle_connect eaddrnotavail = some false
handle_connect econnrefused = some false
handle_connect enetunreach = some false
handle_connect fatal = none

pub data Task : Type 0 where
  start_in_loop_task stop_in_loop_task reset_channel_task : Task

-- `handle` is the descriptor of handle_; `delays` are the timers set by runAfter, in milliseconds,
-- and `connections` the calls of newConnectionCallback_, each the oldest first.
pub record Connector : Type 0 where
  pub connect_flag : Bool
  pub state : States
  pub retry_ms : ℕ
  pub max_retry_ms : ℕ
  pub handle : Option ℕ
  pub channel : Option Channel
  pub poller : Poller
  pub tasks : List Task
  pub delays : List ℕ
  pub connections : List ℕ

-- Connector::Connector.
abbrev pub make_connector : Poller → Connector
make_connector p = record {
  connect_flag = false;
  state = disconnected;
  retry_ms = 1000;
  max_retry_ms = 100000;
  handle = none;
  channel = none;
  poller = p;
  tasks = [];
  delays = [];
  connections = [];
}

abbrev pub push_task : Task → Connector → Connector
push_task t c = record c { tasks = c.tasks ++ t ∷ [] }

pub retry : Connector → Connector
retry c =
    if c.connect_flag
    then record c {
      handle = none;
      state = disconnected;
      delays = c.delays ++ c.retry_ms ∷ [];
      retry_ms = min (c.retry_ms * 2) c.max_retry_ms;
    }
    else c

set_channel : Connector → Option (Channel × Poller) → Option Connector
set_channel c none = none
set_channel c (some (ch, p)) = some (record c { channel = some ch; poller = p })

-- connecting: `addr` is the address of the new channel.
connecting : ℕ → ℕ → Option Channel → Connector → Option Connector
unfolding set_channel
connecting addr fd (some ch) c = none
connecting addr fd none c =
    set_channel (record c { state = connecting_state })
      (enable_send (make_channel addr fd) c.poller)

-- connect: a new handle on `fd`.
pub connect : ℕ → ℕ → ConnectResult → Connector → Option Connector
unfolding handle_connect connecting retry
connect addr fd r c = handle_connect r >>= λ ok.
    (let c1 = record c { handle = some fd } in
      if ok then connecting addr fd c1.channel c1 else some (retry c1))

pub start_in_loop : ℕ → ℕ → ConnectResult → Connector → Option Connector
unfolding connect
start_in_loop addr fd r c = if c.connect_flag then connect addr fd r c else some c

-- start, called in the loop's thread or not.
pub start : Bool → ℕ → ℕ → ConnectResult → Connector → Option Connector
unfolding start_in_loop
start in_loop addr fd r c =
    let c1 = record c { connect_flag = true } in
    if in_loop then start_in_loop addr fd r c1 else some (push_task start_in_loop_task c1)

pub restart : ℕ → ℕ → ConnectResult → Connector → Option Connector
unfolding start_in_loop
restart addr fd r c =
    start_in_loop addr fd r
      (record c { state = disconnected; retry_ms = 1000; connect_flag = true })

-- disableAll and remove of the channel, one after the other.
remove_registered : Option (Channel × Poller) → Option (Channel × Poller)
remove_registered none = none
remove_registered (some (ch, p)) = remove ch p

remove_present : Option Channel → Connector → Option Connector
unfolding remove_registered set_channel
remove_present none c = none
remove_present (some ch) c = do
  c1 ← set_channel c (remove_registered (disable_all ch c.poller))
  some (push_task reset_channel_task c1)

pub remove_channel : Connector → Option Connector
unfolding remove_present
remove_channel c = remove_present c.channel c

abbrev pub reset_channel : Connector → Connector
reset_channel c = record c { channel = none }

unfoldable pub stop : Connector → Connector
stop c = push_task stop_in_loop_task (record c { connect_flag = false })

pub stop_in_loop : Connector → Option Connector
unfolding remove_channel retry
stop_in_loop c =
    if is_connecting c.state then (do c1 ← remove_channel c; some (retry c1)) else some c

-- setState(CONNECTED) and newConnectionCallback_.
connected_with : Option ℕ → Connector → Option Connector
connected_with none c = none
connected_with (some fd) c =
    some (record c { state = connected; connections = c.connections ++ fd ∷ [] })

-- handleWrite. `ok` is what getSocketError returns: whether getsockopt itself succeeded.
pub handle_write : Bool → Connector → Option Connector
unfolding remove_channel retry connected_with
handle_write ok c =
    if is_connecting c.state
    then (do c1 ← remove_channel c; if not ok then some (retry c1) else connected_with c1.handle c1)
    else some c

pub handle_error : Connector → Option Connector
unfolding remove_channel retry
handle_error c =
    if is_connecting c.state then (do c1 ← remove_channel c; some (retry c1)) else some c
