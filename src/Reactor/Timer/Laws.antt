-- ===== src/Reactor/Timer/Laws.antt =====
-- When the timers of src/slite/Timer.cc expire, and how often.
use serverlite.Base.{
  ℕ, ◌+◌, ◌*◌, ◌%◌, ◌^◌, ◌≤◌, ◌<◌, ◌≡◌, ◌↔◌, refl, arith, Bool, true, false, [], ◌∷◌, ◌++◌, some,
  none,
}
use serverlite.Base.Maps.{erase, contains, insert_self, erase_self}
use serverlite.Reactor.Timer.{
  TimerSpec, Timers, add_timer_in_loop, next_sequence, run_after, run_every, cancel, handle_read,
  has_no_interval,
}

-- The time to the first expiry that the itimerspec asks the kernel for, in nanoseconds.
abbrev pub first_expiry : TimerSpec → ℕ
first_expiry s = s.value_sec * 10 ^ 9 + s.value_nsec

-- The itimerspec is one that timerfd_settime accepts, and its first expiry is never later than the
-- time that was asked for, in whole milliseconds; it is at that time exactly when the time is a
-- whole number of seconds, and too early otherwise.
pub add_timer_in_loop_early :
    (time interval : ℕ)
    → let s = add_timer_in_loop false time interval in
      (s.value_nsec < 10 ^ 9)
      × (s.interval_nsec < 10 ^ 9)
      × (first_expiry s ≤ time * 10 ^ 6)
      × ((first_expiry s ≡ time * 10 ^ 6) ↔ (time % 1000 ≡ 0))
unfolding add_timer_in_loop
add_timer_in_loop_early time interval =
    (omega arith, omega arith, omega arith, (λ e. omega arith, λ e. omega arith))

cancel_timer :
    (sequence : ℕ) (s : TimerSpec) (t : Timers)
    → t.timers sequence ≡ some s
    → cancel sequence t ≡ record t { timers = erase t.timers sequence }
unfolding cancel
cancel_timer sequence s t e = rw (e, contains)

handle_read_gone :
    (sequence : ℕ) (t : Timers) → t.timers sequence ≡ none → handle_read sequence t ≡ t
unfolding handle_read
handle_read_gone sequence t e = rw e

abbrev fire : ℕ → Timers → Timers
fire sequence t = record t { fired = t.fired ++ sequence ∷ [] }

handle_read_once :
    (sequence : ℕ) (s : TimerSpec) (t : Timers)
    → t.timers sequence ≡ some s
    → has_no_interval s ≡ true
    → handle_read sequence t ≡ record (fire sequence t) { timers = erase t.timers sequence }
unfolding handle_read
handle_read_once sequence s t e h = rw (e, h) (cancel_timer sequence s (fire sequence t) e)

handle_read_again :
    (sequence : ℕ) (s : TimerSpec) (t : Timers)
    → t.timers sequence ≡ some s
    → has_no_interval s ≡ false
    → handle_read sequence t ≡ fire sequence t
unfolding handle_read
handle_read_again sequence s t e h = rw (e, h)

-- A timer made by runAfter runs its callback once: after its first expiry it is no timer of the
-- loop's any more, and further expiries do nothing.
pub run_after_once :
    (is_zero : Bool) (delay : ℕ) (t : Timers)
    → let (t1, sequence) = run_after is_zero delay t in
      let t2 = handle_read sequence t1 in
      (t2.fired ≡ t.fired ++ sequence ∷ [])
      × (t2.timers sequence ≡ none)
      × (handle_read sequence t2 ≡ t2)
unfolding run_after add_timer_in_loop
run_after_once is_zero delay t =
    let n = next_sequence t in
    let s = add_timer_in_loop is_zero delay 0 in
    let t1 = (run_after is_zero delay t).0 in
    let once = handle_read_once n s t1 (insert_self t.timers n s) refl in
    let gone = erase_self t1.timers n in rw once (refl, gone, handle_read_gone n _ gone)

-- A timer made by runEvery, of at least a millisecond, runs its callback at each expiry until it is
-- cancelled; then no more.
pub run_every_repeats :
    (interval : ℕ) (t : Timers)
    → 1 ≤ interval
    → let (t1, sequence) = run_every false interval t in
      let t2 = handle_read sequence t1 in
      (t2.fired ≡ t.fired ++ sequence ∷ [])
      × (t2.timers ≡ t1.timers)
      × (handle_read sequence (cancel sequence t2) ≡ cancel sequence t2)
      × ((cancel sequence t2).timers sequence ≡ none)
unfolding run_every add_timer_in_loop
run_every_repeats interval t h =
    let n = next_sequence t in
    let s = add_timer_in_loop false interval interval in
    let t1 = (run_every false interval t).0 in
    let here = insert_self t.timers n s in
    let fired = handle_read_again n s t1 here (ground arith) in
    let stopped = cancel_timer n s (fire n t1) here in
    let gone = erase_self t1.timers n in
    rw (fired, stopped) (refl, refl, handle_read_gone n _ gone, gone)
