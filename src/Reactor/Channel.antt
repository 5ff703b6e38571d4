-- ===== src/Reactor/Channel.antt =====
-- src/slite/Channel.h and Channel.cc, with updateChannel and removeChannel of
-- src/slite/EventLoop.cc. `none` stands for a failed assert. epoll is the kernel's: the model
-- records the calls of epoll_ctl.
pub mod Registered
mod Tests
use serverlite.Base.{
  ℕ, Bool, true, false, not, ◌&&◌, ◌||◌, Option, some, none, List, [], ◌∷◌, ◌++◌, if◌then◌else◌,
}
use serverlite.Base.Maps.{Map, insert, erase, contains}

-- events_: the only bits ever set are EPOLLIN and EPOLLOUT.
pub record Events : Type 0 where
  pub recv_event : Bool
  pub send_event : Bool

abbrev pub none_event : Events
none_event = record { recv_event = false; send_event = false }

-- revents_: the bits that handleEventsWithGuard tests.
pub record Revents : Type 0 where
  pub epollhup : Bool
  pub epollin : Bool
  pub epollerr : Bool
  pub epollpri : Bool
  pub epollrdhup : Bool
  pub epollout : Bool

pub data ChannelState : Type 0 where
  new add delete : ChannelState

-- `addr` is the channel's address, which stands for it in channels_. The callbacks are set or not;
-- what they do belongs to the object that set them.
pub record Channel : Type 0 where
  pub addr : ℕ
  pub fd : ℕ
  pub events : Events
  pub tied : Bool
  pub state : ChannelState

-- Channel::Channel.
abbrev pub make_channel : ℕ → ℕ → Channel
make_channel addr fd = record {
  addr = addr;
  fd = fd;
  events = none_event;
  tied = false;
  state = new;
}

abbrev pub is_none_event : Channel → Bool
is_none_event c = not c.events.recv_event && not c.events.send_event

abbrev pub is_sending : Channel → Bool
is_sending c = c.events.send_event

abbrev pub is_recving : Channel → Bool
is_recving c = c.events.recv_event

pub data CtlOp : Type 0 where
  ctl_add ctl_mod ctl_del : CtlOp

pub record Ctl : Type 0 where
  pub op : CtlOp
  pub fd : ℕ
  pub events : Events

-- channels_ of the loop, and its calls of epoll_ctl, the latest first.
pub record Poller : Type 0 where
  pub channels : Map ℕ
  pub calls : List Ctl

abbrev ctl : CtlOp → Channel → Poller → Poller
ctl op c p = record p { calls = record { op = op; fd = c.fd; events = c.events } ∷ p.calls }

update_in : ChannelState → Channel → Poller → Option (Channel × Poller)
update_in new c p =
    if contains p.channels c.fd
    then none
    else some (
      record c { state = add },
      ctl ctl_add c (record p { channels = insert p.channels c.fd c.addr }),
    )
update_in delete c p =
    if contains p.channels c.fd then some (record c { state = add }, ctl ctl_add c p) else none
update_in add c p =
    if is_none_event c
    then some (record c { state = delete }, ctl ctl_del c p)
    else some (c, ctl ctl_mod c p)

-- EventLoop::updateChannel.
unfoldable pub update_channel : Channel → Poller → Option (Channel × Poller)
unfolding update_in
update_channel c p = update_in c.state c p

remove_in : ChannelState → Channel → Poller → Poller
remove_in add c p = ctl ctl_del c (record p { channels = erase p.channels c.fd })
remove_in _ c p = record p { channels = erase p.channels c.fd }

-- EventLoop::removeChannel.
unfoldable pub remove_channel : Channel → Poller → Option (Channel × Poller)
unfolding remove_in
remove_channel c p =
    if contains p.channels c.fd
    then some (record c { state = new }, remove_in c.state c p)
    else none

-- disableSend, enableSend, disableRecv, enableRecv, disableAll and remove of Channel.
unfoldable pub disable_send : Channel → Poller → Option (Channel × Poller)
unfolding update_channel
disable_send c p =
    update_channel
      (record c { events = record { recv_event = c.events.recv_event; send_event = false } }) p

unfoldable pub enable_send : Channel → Poller → Option (Channel × Poller)
unfolding update_channel
enable_send c p =
    update_channel
      (record c { events = record { recv_event = c.events.recv_event; send_event = true } }) p

pub disable_recv : Channel → Poller → Option (Channel × Poller)
unfolding update_channel
disable_recv c p =
    update_channel
      (record c { events = record { recv_event = false; send_event = c.events.send_event } }) p

unfoldable pub enable_recv : Channel → Poller → Option (Channel × Poller)
unfolding update_channel
enable_recv c p =
    update_channel
      (record c { events = record { recv_event = true; send_event = c.events.send_event } }) p

unfoldable pub disable_all : Channel → Poller → Option (Channel × Poller)
unfolding update_channel
disable_all c p = update_channel (record c { events = none_event }) p

unfoldable pub remove : Channel → Poller → Option (Channel × Poller)
unfolding remove_channel
remove c p = if is_none_event c then remove_channel c p else none

abbrev pub tie : Channel → Channel
tie c = record c { tied = true }

-- The four callbacks, in the order in which handleEventsWithGuard comes to them.
pub data Callback : Type 0 where
  close_callback error_callback recv_callback send_callback : Callback

abbrev when : Bool → Callback → List Callback
when true cb = cb ∷ []
when false cb = []

-- handleEventsWithGuard. `has` says which callbacks are set.
pub handle_events_with_guard : (Callback → Bool) → Revents → List Callback
handle_events_with_guard has r =
    when ((r.epollhup && not r.epollin) && has close_callback) close_callback
    ++ (when (r.epollerr && has error_callback) error_callback
        ++ (when ((r.epollin || r.epollpri || r.epollrdhup) && has recv_callback) recv_callback
            ++ when (r.epollout && has send_callback) send_callback))

-- handleEvents. `alive` says whether the owner that the channel is tied to still exists.
pub handle_events : (Callback → Bool) → Bool → Channel → Revents → List Callback
unfolding handle_events_with_guard
handle_events has alive c r =
    if c.tied
    then (if alive then handle_events_with_guard has r else [])
    else handle_events_with_guard has r
