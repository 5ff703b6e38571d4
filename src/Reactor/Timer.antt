-- ===== src/Reactor/Timer.antt =====
-- src/slite/Timer.h and Timer.cc, with runAfter, runEvery and cancel of src/slite/EventLoop.cc. The
-- times are given as static_cast<int64_t>(time * 1000), for times that are not negative, and a flag
-- for fabs(time) < 1e-15.
pub mod Laws
mod Tests
use serverlite.Base.{
  ℕ, ◌+◌, ◌*◌, ◌/◌, ◌%◌, ◌^◌, Bool, true, false, ◌&&◌, List, [], ◌∷◌, ◌++◌, Option, some, none,
  if◌then◌else◌, ◌==◌,
}
use serverlite.Base.Maps.{Map, insert, erase, contains}

-- struct itimerspec.
pub record TimerSpec : Type 0 where
  pub value_sec : ℕ
  pub value_nsec : ℕ
  pub interval_sec : ℕ
  pub interval_nsec : ℕ

-- The itimerspec that addTimerInLoop passes to timerfd_settime; a time of zero becomes 0.001.
pub add_timer_in_loop : Bool → ℕ → ℕ → TimerSpec
add_timer_in_loop is_zero time interval =
    let first = if is_zero then 1 else time in
    record {
      value_sec = first / 1000;
      value_nsec = first % 1000 * 1000;
      interval_sec = interval / 1000;
      interval_nsec = interval % 1000 * 1000;
    }

-- s_numCreate, as the bit pattern of an int32_t; timers_; and the sequences of the timers whose
-- callbacks ran, the latest last.
pub record Timers : Type 0 where
  pub num_create : ℕ
  pub timers : Map TimerSpec
  pub fired : List ℕ

abbrev pub next_sequence : Timers → ℕ
next_sequence t = (t.num_create + 1) % 2 ^ 32

abbrev add_timer : Bool → ℕ → ℕ → Timers → Timers × ℕ
add_timer is_zero time interval t = (
  record t {
    num_create = next_sequence t;
    timers = insert t.timers (next_sequence t) (add_timer_in_loop is_zero time interval);
  },
  next_sequence t,
)

pub run_after : Bool → ℕ → Timers → Timers × ℕ
unfolding add_timer_in_loop
run_after is_zero delay t = add_timer is_zero delay 0 t

pub run_every : Bool → ℕ → Timers → Timers × ℕ
unfolding add_timer_in_loop
run_every is_zero interval t = add_timer is_zero interval interval t

pub cancel : ℕ → Timers → Timers
cancel sequence t =
    if contains t.timers sequence then record t { timers = erase t.timers sequence } else t

abbrev has_no_interval : TimerSpec → Bool
has_no_interval s = s.interval_sec == 0 && s.interval_nsec == 0

handle_spec : Option TimerSpec → ℕ → Timers → Timers
unfolding cancel
handle_spec none sequence t = t
handle_spec (some s) sequence t =
    let t1 = record t { fired = t.fired ++ sequence ∷ [] } in
    if has_no_interval s then cancel sequence t1 else t1

-- handleRead of the timer with that sequence: the callback, and the end of a timer with no interval.
-- A timer that is gone has no channel left to be read.
pub handle_read : ℕ → Timers → Timers
unfolding handle_spec
handle_read sequence t = handle_spec (t.timers sequence) sequence t
