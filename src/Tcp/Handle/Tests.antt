-- ===== src/Tcp/Handle/Tests.antt =====
-- Runs of a handle.
use serverlite.Base.{◌+◌, ◌≡◌, refl, some, none, List, [], ◌∷◌}
use serverlite.Tcp.Server.{accepted, passing_errno}
use serverlite.Tcp.Handle.{TcpHandle, opened, closed, accept, make_handle, listen, destroy}
use serverlite.Tcp.Handle.Descriptors.{
  Accept, session, session-closes, times_opened, times_closed, count,
}

-- A connection; then no descriptor is left, and one is turned away; then nothing is there to accept.
abbrev three_turns : List Accept
three_turns =
    record { result = accepted 9; conn = none; null = none }
    ∷ record { result = passing_errno; conn = some 8; null = some 8 }
    ∷ record { result = passing_errno; conn = none; null = none }
    ∷ []

abbrev after_three : TcpHandle
after_three = record {
  fd = 7;
  null_fd = none;
  given = 9 ∷ [];
  calls =
      closed 8 ∷ opened 8 ∷ closed 8 ∷ opened 8 ∷ closed 8 ∷ opened 9 ∷ opened 8 ∷ opened 7 ∷ [];
}

ran_three : session 7 (some 8) three_turns ≡ some after_three
unfolding make_handle listen accept
ran_three = refl

session-closes_example :
    times_opened (destroy after_three) 8 ≡ times_closed (destroy after_three) 8 + count (9 ∷ []) 8
session-closes_example =
    session-closes 8 7 (some 8) three_turns after_three ran_three (λ e. cc)
      ((λ e. cc), ((λ e. cc), ((λ e. cc), tt)))
