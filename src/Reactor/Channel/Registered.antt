-- ===== src/Reactor/Channel/Registered.antt =====
-- Channels of src/slite/Channel.h and their registration with epoll, as epoll_ctl(2) documents it.
use serverlite.Base.{
  ℕ, true, false, not, ◌&&◌, Option, some, none, List, [], ◌∷◌, ◌≡◌, ◌≢◌, refl, arith, Bool-cases,
  inl, inr,
}
use serverlite.Base.Maps.{Map, insert, erase, insert_self, insert_other, erase_self, erase_other}
use serverlite.Reactor.Channel.{
  Events, none_event, Channel, ChannelState, new, add, delete, ctl_add, ctl_mod, ctl_del, Ctl,
  Poller, update_channel, remove_channel, disable_send, enable_send, disable_recv, enable_recv,
  disable_all, remove,
}

-- What epoll_ctl(2) documents: the interest list, and the effect of the three operations. An ADD of
-- a registered descriptor and a MOD of another fail, and nothing is said of them.
pub record Epoll : Type 1 where
  pub Interest : Type 0
  pub registered : Interest → Map Events
  pub start : Interest
  pub perform : Ctl → Interest → Interest
  pub add_lem :
      (fd : ℕ) (e : Events) (s : Interest)
      → registered s fd ≡ none
      → registered (perform (record { op = ctl_add; fd = fd; events = e }) s)
        ≡ insert (registered s) fd e
  pub mod_lem :
      (fd : ℕ) (e d : Events) (s : Interest)
      → registered s fd ≡ some d
      → registered (perform (record { op = ctl_mod; fd = fd; events = e }) s)
        ≡ insert (registered s) fd e
  pub del_lem :
      (fd : ℕ) (e d : Events) (s : Interest)
      → registered s fd ≡ some d
      → registered (perform (record { op = ctl_del; fd = fd; events = e }) s)
        ≡ erase (registered s) fd

-- One operation after another, where the first passes its asserts.
abbrev pub and_then :
    Option (Channel × Poller)
    → (Channel → Poller → Option (Channel × Poller))
    → Option (Channel × Poller)
and_then none f = none
and_then (some (c, p)) f = f c p

-- The loop after EPOLL_CTL_DEL for a channel with no event.
abbrev dropped : Channel → Poller → Poller
dropped c p = record p { calls = record { op = ctl_del; fd = c.fd; events = none_event } ∷ p.calls }

module _ (k : Epoll) where
  open k use {Interest, registered, start, perform, add_lem, mod_lem, del_lem}

  -- The interest list after the calls, the latest of which stands first.
  abbrev pub interest : List Ctl → Interest
  interest [] = start
  interest (c ∷ cs) = perform c (interest cs)

  abbrev pub registration : Poller → Map Events
  registration p = registered (interest p.calls)

  -- What each state of a channel means: NEW, not in channels_ and not registered; ADD, in channels_
  -- and registered with exactly its events; DELETE, in channels_, not registered, with no event.
  abbrev pub Registered : ChannelState → Channel → Poller → Type 0
  Registered new c p = (p.channels c.fd ≡ none) × (registration p c.fd ≡ none)
  Registered add c p = (p.channels c.fd ≡ some c.addr) × (registration p c.fd ≡ some c.events)
  Registered delete c p = (p.channels c.fd ≡ some c.addr) × (registration p c.fd ≡ none)

  -- An update leaves the channel added with its new events, or deleted where it has none and was
  -- added; the registrations of the other descriptors are as before.
  pub record Updated (c : Channel) (p : Poller) (ev : Events) (r : Option (Channel × Poller))
      : Type 0 where
    pub channel : Channel
    pub poller : Poller
    pub succeeds : r ≡ some (channel, poller)
    pub registered : Registered channel.state channel poller
    pub events : channel.events ≡ ev
    pub same : (channel.fd ≡ c.fd) × (channel.addr ≡ c.addr) × (channel.tied ≡ c.tied)
    pub others : (j : ℕ) → j ≢ c.fd → registration poller j ≡ registration p j

  update_channel-Updated :
      (s : ChannelState) (c : Channel) (p : Poller) (ev : Events)
      → c.state ≡ s
      → Registered s c p
      → Updated c p ev (update_channel (record c { events = ev }) p)
  unfolding update_channel
  update_channel-Updated new c p ev e h =
      let after = add_lem c.fd ev (interest p.calls) h.1 in
      record {
        channel = record c { events = ev; state = add };
        poller = record {
          channels = insert p.channels c.fd c.addr;
          calls = record { op = ctl_add; fd = c.fd; events = ev } ∷ p.calls;
        };
        succeeds = ground arith;
        registered =
            (insert_self p.channels c.fd c.addr, rw after (insert_self (registration p) c.fd ev));
        events = refl;
        same = (refl, refl, refl);
        others = λ j ne. rw after (insert_other (registration p) c.fd j ev ne);
      }
  update_channel-Updated delete c p ev e h =
      let after = add_lem c.fd ev (interest p.calls) h.1 in
      record {
        channel = record c { events = ev; state = add };
        poller = record p { calls = record { op = ctl_add; fd = c.fd; events = ev } ∷ p.calls };
        succeeds = ground arith;
        registered = (h.0, rw after (insert_self (registration p) c.fd ev));
        events = refl;
        same = (refl, refl, refl);
        others = λ j ne. rw after (insert_other (registration p) c.fd j ev ne);
      }
  update_channel-Updated add c p ev e h =
      elim (Bool-cases (not ev.recv_event && not ev.send_event)) [
        | inl nothing ↦
            let after = del_lem c.fd ev c.events (interest p.calls) h.1 in
            record {
              channel = record c { events = ev; state = delete };
              poller = record p {
                calls = record { op = ctl_del; fd = c.fd; events = ev } ∷ p.calls;
              };
              succeeds = ground arith;
              registered = (h.0, rw after (erase_self (registration p) c.fd));
              events = refl;
              same = (refl, refl, refl);
              others = λ j ne. rw after (erase_other (registration p) c.fd j ne);
            }
        | inr something ↦
            let after = mod_lem c.fd ev c.events (interest p.calls) h.1 in
            record {
              channel = record {
                addr = c.addr;
                fd = c.fd;
                events = ev;
                tied = c.tied;
                state = add;
              };
              poller = record p {
                calls = record { op = ctl_mod; fd = c.fd; events = ev } ∷ p.calls;
              };
              succeeds = ground arith;
              registered = (h.0, rw after (insert_self (registration p) c.fd ev));
              events = refl;
              same = (refl, refl, refl);
              others = λ j ne. rw after (insert_other (registration p) c.fd j ev ne);
            }
      ]

  -- An operation of Channel that changes its events, and the events after it.
  pub data Change : Type 0 where
    to_disable_send to_enable_send to_disable_recv to_enable_recv to_disable_all : Change

  abbrev pub change : Change → Channel → Poller → Option (Channel × Poller)
  change to_disable_send = disable_send
  change to_enable_send = enable_send
  change to_disable_recv = disable_recv
  change to_enable_recv = enable_recv
  change to_disable_all = disable_all

  abbrev pub changed : Change → Events → Events
  changed to_disable_send e = record { recv_event = e.recv_event; send_event = false }
  changed to_enable_send e = record { recv_event = e.recv_event; send_event = true }
  changed to_disable_recv e = record { recv_event = false; send_event = e.send_event }
  changed to_enable_recv e = record { recv_event = true; send_event = e.send_event }
  changed to_disable_all e = none_event

  -- If epoll_ctl does what it documents, and the registration of a channel agrees with its state
  -- before, then each of the five operations passes every assert, leaves the events that its name
  -- says and a registration that agrees with the new state, keeps the channel's descriptor, address
  -- and tie, and leaves the registrations of all other descriptors alone.
  pub change-Updated :
      (o : Change) (c : Channel) (p : Poller)
      → Registered c.state c p
      → Updated c p (changed o c.events) (change o c p)
  unfolding disable_send enable_send disable_recv enable_recv disable_all
  change-Updated to_disable_send c p h = update_channel-Updated c.state c p _ refl h
  change-Updated to_enable_send c p h = update_channel-Updated c.state c p _ refl h
  change-Updated to_disable_recv c p h = update_channel-Updated c.state c p _ refl h
  change-Updated to_enable_recv c p h = update_channel-Updated c.state c p _ refl h
  change-Updated to_disable_all c p h = update_channel-Updated c.state c p _ refl h

  -- If epoll_ctl does what it documents, disableAll and then remove, on a channel that is added and
  -- registered, pass every assert: afterwards the channel is NEW, its descriptor is neither in
  -- channels_ nor registered, and every other descriptor keeps its registration.
  pub remove-disable_all :
      (c : Channel) (p : Poller)
      → c.state ≡ add
      → Registered add c p
      → (c' : Channel) × (p' : Poller) × (and_then (disable_all c p) remove ≡ some (c', p'))
        × (c'.state ≡ new)
        × (p'.channels c.fd ≡ none)
        × (registration p' c.fd ≡ none)
        × ((j : ℕ) → j ≢ c.fd → registration p' j ≡ registration p j)
  unfolding disable_all remove update_channel remove_channel
  remove-disable_all c p e h =
      let after = del_lem c.fd none_event c.events (interest p.calls) h.1 in
      (
        record c { events = none_event; state = new },
        record { channels = erase p.channels c.fd; calls = (dropped c p).calls },
        ground (arith, h.0),
        refl,
        erase_self p.channels c.fd,
        rw after (erase_self (registration p) c.fd),
        λ j ne. rw after (erase_other (registration p) c.fd j ne),
      )

  -- If epoll_ctl does what it documents, on a channel that is added and registered one disableAll
  -- takes the descriptor off the interest list, and a second one puts it back, registered for no
  -- event.
  pub disable_all_twice :
      (c : Channel) (p : Poller)
      → c.state ≡ add
      → Registered add c p
      → (c' : Channel) × (p' : Poller) × (c'' : Channel) × (p'' : Poller) × (disable_all c p
          ≡ some (c', p'))
        × (registration p' c.fd ≡ none)
        × (disable_all c' p' ≡ some (c'', p''))
        × (registration p'' c.fd ≡ some none_event)
  unfolding disable_all update_channel
  disable_all_twice c p e h =
      let after = del_lem c.fd none_event c.events (interest p.calls) h.1 in
      let gone : registration (dropped c p) c.fd ≡ none =
        rw after (erase_self (registration p) c.fd) in
      let back = add_lem c.fd none_event (interest (dropped c p).calls) gone in
      (
        record c { events = none_event; state = delete },
        dropped c p,
        record c { events = none_event; state = add },
        record (dropped c p) {
          calls = record { op = ctl_add; fd = c.fd; events = none_event } ∷ (dropped c p).calls;
        },
        ground arith,
        gone,
        ground (arith, h.0),
        rw back (insert_self (registration (dropped c p)) c.fd none_event),
      )
