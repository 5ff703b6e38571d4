-- ===== src/Reactor/Timer/Tests.antt =====
-- Runs of timers.
use serverlite.Base.{◌≡◌, refl, false, [], none}
use serverlite.Reactor.Timer.{Timers, add_timer_in_loop}
use serverlite.Reactor.Timer.Laws.{first_expiry}

abbrev idle : Timers
idle = record { num_create = 4; timers = λ n. none; fired = [] }

-- runAfter(0.5, ...) asks for 500 microseconds.
half_second : first_expiry (add_timer_in_loop false 500 0) ≡ 500000
unfolding add_timer_in_loop
half_second = refl
