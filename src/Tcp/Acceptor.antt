-- ===== src/Tcp/Acceptor.antt =====
-- src/slite/Acceptor.h and Acceptor.cc, but for handleRecv, which stands with the server: the listening
-- handle and its channel. none: a failed assert, or LOG_FATAL.
use serverlite.Base.{
  ℕ, Bool, true, false, Option, some, none, [], ◌∷◌, ◌≡◌, refl, arith, ap, sym, ◌∙◌, if◌then◌else◌,
}
use serverlite.Base.Options.{◌>>=◌}
use serverlite.Base.Maps.{insert, erase, erase_self, contains, contains-insert_self, insert_self}
use serverlite.Reactor.Channel.{
  Channel, Poller, make_channel, new, add, enable_recv, disable_all, remove, is_recving, ctl_add,
  ctl_del, delete, Events, none_event,
}
use serverlite.Tcp.Handle.{TcpHandle, opened, opens}
use serverlite.Tcp.Handle

pub record Acceptor : Type 0 where
  pub handle : TcpHandle
  pub channel : Channel
  pub poller : Poller
  pub listening : Bool

abbrev on_handle : ℕ → Bool → Poller → TcpHandle → Option Acceptor
on_handle addr bound p h =
    if bound
    then some
        (record { handle = h; channel = make_channel addr h.fd; poller = p; listening = false })
    else none

-- Acceptor::Acceptor: `fd` is what ::socket gives, `addr` the channel's address, and `bound` whether
-- ::bind succeeds. listening_ is not set; it is read nowhere.
pub make_acceptor : Option ℕ → ℕ → Bool → Poller → Option Acceptor
make_acceptor fd addr bound p = do h ← Handle.make_handle fd; on_handle addr bound p h

abbrev with_channel : Acceptor → Option (Channel × Poller) → Option Acceptor
with_channel a none = none
with_channel a (some (ch, p)) = some (record a { channel = ch; poller = p })

-- Acceptor::listen: whether ::listen succeeds, and what ::open of /dev/null gives.
pub listen : Bool → Option ℕ → Acceptor → Option Acceptor
listen ok null a = do
  h ← Handle.listen ok null a.handle
  with_channel (record a { handle = h; listening = true }) (enable_recv a.channel a.poller)

-- Acceptor::~Acceptor.
pub destroy : Acceptor → Option Acceptor
destroy a = do
  b ← with_channel a (disable_all a.channel a.poller)
  with_channel b (remove b.channel b.poller)

-- enableRecv on a channel that epoll does not have yet.
enable_recv_new :
    (ch : Channel) (p : Poller)
    → ch.state ≡ new
    → p.channels ch.fd ≡ none
    → (ch' : Channel) × (p' : Poller) × (enable_recv ch p ≡ some (ch', p'))
      × (ch'.state ≡ add)
      × (p'.channels ch.fd ≡ some ch.addr)
      × (ch'.fd ≡ ch.fd)
      × (is_recving ch' ≡ true)
unfolding enable_recv
enable_recv_new ch p fresh free =
    let e : Events = record { recv_event = true; send_event = ch.events.send_event } in
    (
      record ch { events = e; state = add },
      record p {
        channels = insert p.channels ch.fd ch.addr;
        calls = record { op = ctl_add; fd = ch.fd; events = e } ∷ p.calls;
      },
      ground arith,
      refl,
      insert_self p.channels ch.fd ch.addr,
      refl,
      refl,
    )

-- disableAll and remove, on a channel that epoll has and on one that it does not.
abbrev Closes : Channel → Poller → Type 0
Closes ch p =
    (ch1 : Channel) × (p1 : Poller) × (ch2 : Channel) × (p2 : Poller) × (disable_all ch p
      ≡ some (ch1, p1))
    × (remove ch1 p1 ≡ some (ch2, p2))
    × (p2.channels ch.fd ≡ none)

Closes-add :
    (ch : Channel) (p : Poller) → ch.state ≡ add → contains p.channels ch.fd ≡ true → Closes ch p
unfolding disable_all remove
Closes-add ch p known has =
    let ch1 = record ch { events = none_event; state = delete } in
    let p1 = record p {
      calls = record { op = ctl_del; fd = ch.fd; events = none_event } ∷ p.calls;
    } in
    (
      ch1,
      p1,
      record ch1 { state = new },
      record p1 { channels = erase p.channels ch.fd },
      ground arith,
      ground arith,
      erase_self p.channels ch.fd,
    )

Closes-new : (ch : Channel) (p : Poller) → ch.state ≡ new → p.channels ch.fd ≡ none → Closes ch p
unfolding disable_all remove
Closes-new ch p fresh free =
    let ch1 = record ch { events = none_event; state = add } in
    let p1 = record p {
      channels = insert p.channels ch.fd ch.addr;
      calls = record { op = ctl_add; fd = ch.fd; events = none_event } ∷ p.calls;
    } in
    let has = contains-insert_self p.channels ch.fd ch.addr in
    (
      ch1,
      p1,
      record ch1 { state = new },
      record p1 {
        channels = erase p1.channels ch.fd;
        calls = record { op = ctl_del; fd = ch.fd; events = none_event } ∷ p1.calls;
      },
      ground arith,
      rw has refl,
      erase_self p1.channels ch.fd,
    )

destroy-Closes :
    (a : Acceptor)
    → Closes a.channel a.poller
    → (b : Acceptor) × (destroy a ≡ some b) × (b.poller.channels a.channel.fd ≡ none)
unfolding destroy
destroy-Closes a (ch1, p1, ch2, p2, e1, e2, gone) =
    (record a { channel = ch2; poller = p2 }, rw (e1, e2) refl, gone)

-- An acceptor on a descriptor that epoll does not have, which is made and listens, and is then
-- destroyed, or is destroyed without listening: no assert fails, its channel read from listen on,
-- and in the end the loop has no channel for its descriptor, as before.
pub destroy-listen :
    (fd addr : ℕ) (null : Option ℕ) (p : Poller)
    → p.channels fd ≡ none
    → (a : Acceptor) × (b : Acceptor) × (c : Acceptor) × (d : Acceptor) × (make_acceptor
          (some fd)
          addr
          true
          p
        ≡ some a)
      × (listen true null a ≡ some b)
      × (is_recving b.channel ≡ true)
      × (b.poller.channels fd ≡ some addr)
      × (destroy b ≡ some c)
      × (c.poller.channels fd ≡ none)
      × (destroy a ≡ some d)
      × (d.poller.channels fd ≡ none)
unfolding make_acceptor listen Handle.make_handle Handle.listen
destroy-listen fd addr null p free =
    let ch = make_channel addr fd in
    let h : TcpHandle = record { fd = fd; null_fd = some 0; given = []; calls = opened fd ∷ [] } in
    let a : Acceptor = record { handle = h; channel = ch; poller = p; listening = false } in
    let (ch1, p1, e1, on, known, same, own) = enable_recv_new ch p refl free in
    let b : Acceptor = record {
      handle = record h { null_fd = null; calls = opens null h.calls };
      channel = ch1;
      poller = p1;
      listening = true;
    } in
    let has : contains p1.channels ch1.fd ≡ true = rw (same, known, contains) refl in
    let (c, ec, gone) = destroy-Closes b (Closes-add ch1 p1 on has) in
    let (d, ed, free_again) = destroy-Closes a (Closes-new ch p refl free) in
    (
      a,
      b,
      c,
      d,
      refl,
      rw e1 refl,
      own,
      known,
      ec,
      ap c.poller.channels (sym same) ∙ gone,
      ed,
      free_again,
    )
