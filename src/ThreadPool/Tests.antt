-- ===== src/ThreadPool/Tests.antt =====
-- Runs of a pool of one thread with room for one task.
use serverlite.Base.{ℕ, ◌≡◌, refl, ◌≤◌, ◌⊎◌, List, true, some, [], ◌∷◌}
use serverlite.ThreadPool.{
  Pool, start, run, take, taking, executing, Threads, Steps, stays, then_step, runs, tests, takes,
  started, set_worker, nobody, sleeps,
}
use serverlite.ThreadPool.Order.{Inv, Steps-Inv}
use serverlite.ThreadPool.Waking.{run_unblocks}

abbrev full : Pool
full = record (start 1 1) { queue = 5 ∷ []; accepted = 5 ∷ [] }

abbrev handed : Pool
handed = record (start 1 1) { accepted = 5 ∷ []; taken = 5 ∷ [] }

abbrev busy : Threads
busy =
    set_worker 0 (executing 5) handed
      (set_worker 0 taking full (record (started 1 1) { pool = full }))

Steps-busy : Steps (started 1 1) busy
unfolding run take
Steps-busy =
    then_step (then_step (then_step stays (runs 5 full refl)) (tests 0 refl))
      (takes 0 (some 5) handed true (record { asleep = []; woken = [] }) refl refl (nobody refl))

Steps-Inv_example : Inv handed
Steps-Inv_example = Steps-Inv 1 1 Steps-busy

-- A second caller finds the queue full.
abbrev waiting : Threads
waiting = record (started 1 1) { pool = full; callers = record { asleep = 6 ∷ []; woken = [] } }

Steps-waiting : Steps (started 1 1) waiting
unfolding run
Steps-waiting = then_step (then_step stays (runs 5 full refl)) (sleeps 6 refl)

run_unblocks_example :
    (1 ≤ 1)
    × (((g : ℕ) × (p : Pool) × (take full ≡ some (some g, p, true)))
        ⊎ ((f : ℕ) × (fs : List ℕ) × (p : Pool) × ([] ≡ f ∷ fs)
            × (run f full ≡ some p)
            × (p.accepted ≡ 5 ∷ f ∷ [])))
run_unblocks_example = run_unblocks 1 1 waiting Steps-waiting (λ e. cc)
