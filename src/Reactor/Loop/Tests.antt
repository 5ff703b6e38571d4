-- ===== src/Reactor/Loop/Tests.antt =====
-- Runs of the loop.
use serverlite.Base.{arith, refl, false, [], ◌∷◌}
use serverlite.Reactor.Loop.{
  Loop, start, push_task, push_task_there, begin_tasks, Reach, here, then_step, starts, wakes,
  pushes_there, wakes_there, pushes_here, begins, runs, ends, polling,
}
use serverlite.Reactor.Loop.Tasks.{Inv, Reach-Inv}

-- Another thread pushes task 1 while the loop sleeps; a callback pushes task 2, and both are run.
abbrev pushed_loop : Loop
pushed_loop = record {
  phase = polling;
  quit_flag = false;
  counter = 1;
  waking = 0;
  quitting = 0;
  queue = [];
  events_size = 32;
  ran = 1 ∷ 2 ∷ [];
  pushed = 1 ∷ 2 ∷ [];
}

Reach-pushed_loop : Reach pushed_loop
unfolding start push_task push_task_there begin_tasks
Reach-pushed_loop =
    then_step
      (then_step
        (then_step
          (then_step
            (then_step
              (then_step
                (then_step (then_step (then_step here (starts refl)) (pushes_there 1))
                  (wakes_there (omega arith)))
                (wakes refl))
              (pushes_here 2 refl))
            (begins 1 refl))
          (runs 1 (2 ∷ []) refl))
        (runs 2 [] refl))
      (ends refl)

Reach-Inv_example : Inv pushed_loop
Reach-Inv_example = Reach-Inv Reach-pushed_loop
