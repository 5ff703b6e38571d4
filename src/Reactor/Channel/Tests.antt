-- ===== src/Reactor/Channel/Tests.antt =====
-- Runs of channels on an interest list that is a map.
use serverlite.Base.{ℕ, ◌≡◌, refl, true, false, some, none, [], ◌∷◌}
use serverlite.Base.Maps.{Map, insert, erase}
use serverlite.Reactor.Channel.{
  Events, Channel, make_channel, add, CtlOp, ctl_add, ctl_mod, ctl_del, Poller, enable_recv,
}
use serverlite.Reactor.Channel.Registered.{Epoll, Updated, to_enable_send, change, change-Updated}

abbrev perform_op : CtlOp → ℕ → Events → Map Events → Map Events
perform_op ctl_add fd e m = insert m fd e
perform_op ctl_mod fd e m = insert m fd e
perform_op ctl_del fd e m = erase m fd

abbrev epoll : Epoll
epoll = record {
  Interest = Map Events;
  registered = λ s. s;
  start = λ fd. none;
  perform = λ c s. perform_op c.op c.fd c.events s;
  add_lem = λ fd e s h. refl;
  mod_lem = λ fd e d s h. refl;
  del_lem = λ fd e d s h. refl;
}

abbrev channel : Channel
channel = record (make_channel 1000 7) {
  events = record { recv_event = true; send_event = false };
  state = add;
}

abbrev poller : Poller
poller = record {
  channels = insert (λ fd. none) 7 1000;
  calls =
      record { op = ctl_add; fd = 7; events = record { recv_event = true; send_event = false } }
      ∷ [];
}

-- The channel after enableRecv on a fresh one.
enabled :
    enable_recv (make_channel 1000 7) (record { channels = λ fd. none; calls = [] })
    ≡ some (channel, poller)
unfolding enable_recv
enabled = refl

change-Updated_example :
    Updated epoll channel poller
      (record { recv_event = true; send_event = true })
      (change epoll to_enable_send channel poller)
change-Updated_example = change-Updated epoll to_enable_send channel poller (refl, refl)
