-- ===== src/Tcp/Connection.antt =====
-- src/slite/TCPConnection.h and TCPConnection.cc, with send, recv and shutdown of
-- src/slite/TCPHandle.cc. What the kernel answers to ::send and ::recv is an argument of the step
-- that makes the call. A callback, and a task handed to the loop, is recorded; `none` stands for a
-- failed assert.
pub mod Output
pub mod Queue
pub mod Draining
pub mod Shutting
pub mod Closing
pub mod Live
pub mod Tests
use serverlite.Base.{
  ℕ, ◌+◌, ◌-◌, Bool, true, false, not, ◌&&◌, ◌||◌, Option, some, none, List, [], ◌∷◌, ◌++◌, Bytes,
  length, take, drop, is_empty, codes, if◌then◌else◌, ltb, ◌==◌,
}
use serverlite.Reactor.Channel.{
  Channel, Poller, make_channel, is_sending, is_recving, disable_send, enable_send, enable_recv,
  disable_all, remove, tie,
}

pub data ConnState : Type 0 where
  disconnected connecting connected disconnecting : ConnState

abbrev pub is_connected : ConnState → Bool
is_connected connected = true
is_connected _ = false

abbrev pub is_disconnected : ConnState → Bool
is_disconnected disconnected = true
is_disconnected _ = false

abbrev pub is_disconnecting : ConnState → Bool
is_disconnecting disconnecting = true
is_disconnecting _ = false

-- stateToString.
pub state_to_string : ConnState → Bytes
state_to_string disconnected = codes "Disconnected"
state_to_string connecting = codes "Connecting"
state_to_string connected = codes "Connected"
state_to_string disconnecting = codes "Disconnecting"

-- The errno values that the code tells apart.
pub data Errno : Type 0 where
  ewouldblock eintr epipe econnreset other_errno : Errno

-- ::send: the number of bytes taken, or -1 with errno.
pub data SendResult : Type 0 where
  sent : ℕ → SendResult
  send_error : Errno → SendResult

-- ::recv: the bytes read (none at the end of the stream), or -1 with errno.
pub data RecvResult : Type 0 where
  received : Bytes → RecvResult
  recv_error : Errno → RecvResult

-- What the connection has done to its socket: the bytes that ::send took, in order, and whether
-- ::shutdown(SHUT_WR) was called.
pub record Socket : Type 0 where
  pub output : Bytes
  pub shut : Bool

-- The tasks that the connection hands to its loop.
pub data Task : Type 0 where
  send_in_loop_task : Bytes → Task
  shutdown_in_loop_task handle_close_task write_complete_task : Task

-- The callbacks of the connection, as they are called.
pub data Call : Type 0 where
  connection_call : Bool → Call
  message_call : Bytes → Call
  close_call write_complete_call : Call

pub record Connection : Type 0 where
  pub recv_buffer : Bytes
  pub send_buffer : Bytes
  pub socket : Socket
  pub state : ConnState
  pub channel : Channel
  pub poller : Poller
  -- Whether writeCompleteCallback_ is set.
  pub has_write_complete : Bool
  -- The tasks pushed to the loop and not yet run, and the callbacks made, each the oldest first.
  pub tasks : List Task
  pub calls : List Call

abbrev pub push_task : Task → Connection → Connection
push_task t c = record c { tasks = c.tasks ++ t ∷ [] }

abbrev pub call : Call → Connection → Connection
call k c = record c { calls = c.calls ++ k ∷ [] }

abbrev with_channel : Connection → Option (Channel × Poller) → Option Connection
with_channel c none = none
with_channel c (some (ch, p)) = some (record c { channel = ch; poller = p })

infixl 5 ◌>>=◌
abbrev pub ◌>>=◌ : Option Connection → (Connection → Option Connection) → Option Connection
none >>= f = none
some c >>= f = f c

-- TCPHandle::send: the socket after the call.
abbrev pub write : Bytes → SendResult → Connection → Connection
write bytes (sent n) c = record c {
  socket = record { output = c.socket.output ++ take n bytes; shut = c.socket.shut };
}
write bytes (send_error e) c = c

-- errno == EPIPE || errno == ECONNRESET, in the branch for a failed send.
abbrev pub is_broken : SendResult → Bool
is_broken (send_error epipe) = true
is_broken (send_error econnreset) = true
is_broken _ = false

-- nsend, with 0 for -1.
abbrev pub taken : SendResult → ℕ
taken (sent n) = n
taken (send_error e) = 0

abbrev pub has_failed : SendResult → Bool
has_failed (sent n) = false
has_failed (send_error e) = true

-- `if (!sendError && remaining > 0)`, at the data that is left.
pub append_output : Bool → Bytes → Connection → Option Connection
append_output send_failed rest c =
    if not send_failed && not (is_empty rest)
    then (let c' = record c { send_buffer = c.send_buffer ++ rest } in
        if not (is_sending c.channel)
        then with_channel c' (enable_send c.channel c.poller)
        else some c')
    else some c

-- sendInLoop, where nothing waits to be sent: the data goes to the socket at once, and what the
-- socket does not take goes to the buffer.
pub send_direct : Bytes → SendResult → Connection → Option Connection
unfolding append_output
send_direct bytes r c =
    let c1 = write bytes r c in
    let rest = drop (taken r) bytes in
    let done = not (has_failed r) && is_empty rest && c.has_write_complete in
    append_output (is_broken r) rest (if done then push_task write_complete_task c1 else c1)

-- sendInLoop.
pub send_in_loop : Bytes → SendResult → Connection → Option Connection
unfolding append_output send_direct
send_in_loop bytes r c =
    if is_disconnected c.state
    then some c
    else if not (is_sending c.channel) && is_empty c.send_buffer
    then send_direct bytes r c
    else append_output false bytes c

-- shutdownInLoop.
pub shutdown_in_loop : Connection → Connection
shutdown_in_loop c =
    if not (is_sending c.channel)
    then record c { socket = record { output = c.socket.output; shut = true } }
    else c

-- `if (sendBuffer_.size() == 0)` of handleSend, after the erase.
finish_output : Connection → Option Connection
finish_output c =
    if is_empty c.send_buffer
    then (let c1 = if c.has_write_complete then push_task write_complete_task c else c in
        with_channel c1 (disable_send c.channel c.poller))
    else some c

-- handleSend.
pub handle_send : SendResult → Connection → Option Connection
unfolding shutdown_in_loop finish_output
handle_send r c =
    if is_sending c.channel && ltb 0 (taken r)
    then (let c1 = write c.send_buffer r c in
        finish_output (record c1 { send_buffer = drop (taken r) c.send_buffer }) >>= λ c2.
        some (if is_disconnecting c2.state then shutdown_in_loop c2 else c2))
    else some c

-- handleClose.
pub handle_close : Connection → Option Connection
handle_close c = do
  c1 ← with_channel (record c { state = disconnected }) (disable_all c.channel c.poller)
  some (call close_call (call (connection_call false) c1))

-- The branches of handleRecv on the result of ::recv. An EINTR or EWOULDBLOCK falls through to the
-- message callback, with no new bytes; handleError only logs. `consume` is what messageCallback_
-- leaves in the buffer that it is handed.
recv_as : (Bytes → Bytes) → RecvResult → Connection → Option Connection
recv_as consume (received []) c = handle_close c
recv_as consume (received (b ∷ bs)) c =
    let buf = c.recv_buffer ++ (b ∷ bs) in
    some (call (message_call buf) (record c { recv_buffer = consume buf }))
recv_as consume (recv_error eintr) c =
    some (call (message_call c.recv_buffer) (record c { recv_buffer = consume c.recv_buffer }))
recv_as consume (recv_error ewouldblock) c =
    some (call (message_call c.recv_buffer) (record c { recv_buffer = consume c.recv_buffer }))
recv_as consume (recv_error _) c = some c

-- handleRecv.
unfoldable pub handle_recv : (Bytes → Bytes) → RecvResult → Connection → Option Connection
unfolding handle_close recv_as
handle_recv consume r c = if is_recving c.channel then recv_as consume r c else none

-- connectEstablished.
pub connect_established : Connection → Option Connection
connect_established c = do
  c1 ← with_channel (record c { state = connected }) (enable_recv c.channel c.poller)
  some (call (connection_call true) (record c1 { channel = tie c1.channel }))

-- The first half of connectDestroyed, for a server that goes away.
disconnect : Connection → Option Connection
disconnect c =
    if is_connected c.state
    then (with_channel (record c { state = disconnected }) (disable_all c.channel c.poller)
        >>= λ c1. some (call (connection_call false) c1))
    else some c

-- connectDestroyed.
pub connect_destroyed : Connection → Option Connection
unfolding disconnect
connect_destroyed c = do c1 ← disconnect c; with_channel c1 (remove c1.channel c1.poller)

-- shutdown, called in the loop's thread or not.
pub shutdown : Bool → Connection → Connection
unfolding shutdown_in_loop
shutdown in_loop c =
    if is_connected c.state
    then (let c1 = record c { state = disconnecting } in
        if in_loop then shutdown_in_loop c1 else push_task shutdown_in_loop_task c1)
    else c

-- forceClose.
pub force_close : Connection → Connection
force_close c =
    if is_connected c.state || is_disconnecting c.state
    then push_task handle_close_task (record c { state = disconnected })
    else c

-- send, called in the loop's thread or not. In another thread it hands the data over as a task.
pub send : Bool → Bytes → SendResult → Connection → Option Connection
unfolding send_in_loop
send in_loop bytes r c =
    if in_loop then send_in_loop bytes r c else some (push_task (send_in_loop_task bytes) c)

-- What can happen to a connection: the public operations, the channel's callbacks, and the loop
-- coming to the next task that was pushed. Each carries the kernel's answers that it needs.
pub data Op : Type 0 where
  established destroyed force_closes : Op
  sends : Bool → Bytes → SendResult → Op
  shuts_down : Bool → Op
  readable : (Bytes → Bytes) → RecvResult → Op
  writable : SendResult → Op
  next_task : SendResult → Op

-- One pushed task run.
pub run_task : Task → SendResult → Connection → Option Connection
unfolding send_in_loop shutdown_in_loop handle_close
run_task (send_in_loop_task bytes) r c = send_in_loop bytes r c
run_task shutdown_in_loop_task r c = some (shutdown_in_loop c)
run_task handle_close_task r c = handle_close c
run_task write_complete_task r c = some (call write_complete_call c)

pub run_first : List Task → SendResult → Connection → Option Connection
unfolding run_task
run_first [] r c = some c
run_first (t ∷ ts) r c = run_task t r (record c { tasks = ts })

unfoldable pub step : Op → Connection → Option Connection
unfolding connect_established connect_destroyed force_close send shutdown handle_recv handle_send
    run_first
step established c = connect_established c
step destroyed c = connect_destroyed c
step force_closes c = some (force_close c)
step (sends in_loop bytes r) c = send in_loop bytes r c
step (shuts_down in_loop) c = some (shutdown in_loop c)
step (readable consume r) c = handle_recv consume r c
step (writable r) c = handle_send r c
step (next_task r) c = run_first c.tasks r c

unfoldable pub steps : List Op → Connection → Option Connection
unfolding step
steps [] c = some c
steps (o ∷ os) c = step o c >>= steps os
