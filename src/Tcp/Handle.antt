-- ===== src/Tcp/Handle.antt =====
-- The descriptors of src/slite/TCPHandle.h and TCPHandle.cc: the socket, and the spare one on /dev/null
-- that accept gives up to turn a connection away. What the kernel answers is an argument; a
-- descriptor of -1 is none. The calls that open and close one are recorded, the latest first.
pub mod Descriptors
mod Tests
use serverlite.Base.{
  ℕ, zero, suc, Bool, true, false, Option, some, none, List, [], ◌∷◌, if◌then◌else◌,
}
use serverlite.Tcp.Server.{AcceptResult, accepted, passing_errno, fatal_errno}

pub data Call : Type 0 where
  opened closed : ℕ → Call

-- `given` are the descriptors of the handles that accept made.
pub record TcpHandle : Type 0 where
  pub fd : ℕ
  pub null_fd : Option ℕ
  pub given : List ℕ
  pub calls : List Call

-- ::open or ::accept gave a descriptor, or -1.
abbrev pub opens : Option ℕ → List Call → List Call
opens none calls = calls
opens (some d) calls = opened d ∷ calls

-- ::close, which does nothing for -1.
abbrev pub close : Option ℕ → List Call → List Call
close none calls = calls
close (some d) calls = closed d ∷ calls

-- TCPHandle::TCPHandle. none: LOG_FATAL ends the process. nullFd_ is 0 at first.
unfoldable pub make_handle : Option ℕ → Option TcpHandle
make_handle none = none
make_handle (some fd) =
    some (record { fd = fd; null_fd = some 0; given = []; calls = opened fd ∷ [] })

-- listen: whether ::listen succeeded, and what ::open of /dev/null gave.
unfoldable pub listen : Bool → Option ℕ → TcpHandle → Option TcpHandle
listen ok null h =
    if ok then some (record h { null_fd = null; calls = opens null h.calls }) else none

-- The spare descriptor is closed, a connection taken in its place and closed, and the spare one
-- opened again.
pub turn_away : Option ℕ → Option ℕ → TcpHandle → TcpHandle
turn_away conn null h = record h {
  null_fd = null;
  calls = opens null (close conn (opens conn (close h.null_fd h.calls)));
}

-- accept: what ::accept gives, and in the case of an errno what the second ::accept and ::open do.
pub accept : AcceptResult → Option ℕ → Option ℕ → TcpHandle → Option TcpHandle
unfolding turn_away
accept (accepted fd) conn null h =
    some (record h { given = fd ∷ h.given; calls = opened fd ∷ h.calls })
accept passing_errno conn null h = some (turn_away conn null h)
accept fatal_errno conn null h = none

-- The destructor, with its test of nullFd_.
abbrev pub close_spare : Option ℕ → List Call → List Call
close_spare (some (suc d)) calls = closed (suc d) ∷ calls
close_spare _ calls = calls

pub destroy : TcpHandle → List Call
destroy h = close_spare h.null_fd (closed h.fd ∷ h.calls)
