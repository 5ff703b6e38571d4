-- ===== src/Reactor/Loop/Tasks.antt =====
-- The tasks and wakeups of src/slite/EventLoop.cc in the states that its loop reaches.
use serverlite.Base.{
  ℕ, zero, suc, ◌+◌, ◌<◌, ◌≡◌, ◌≢◌, refl, arith, Bool, true, false, List, [], ◌∷◌, ◌++◌,
  append_assoc, append-nil,
}
use serverlite.Reactor.Loop.{
  Phase, outside, polling, handling, tasks, Loop, initial, push_task, push_task_there, quit, start,
  again, begin_tasks, Step, starts, pushes_here, pushes_there, wakes_there, quits_here, quits_there,
  tests_there, times_out, fails, wakes, reads, begins, runs, ends, Reach, here, then_step,
}

-- The functors that doTask has swapped out and not yet run.
abbrev pub running : Phase → List ℕ
running (tasks fs) = fs
running _ = []

abbrev pub is_handling : Phase → Bool
is_handling handling = true
is_handling _ = false

pub record Inv (l : Loop) : Type 0 where
  -- Every task pushed has been run, is about to be, or waits in the queue, in that order.
  pub order : l.ran ++ (running l.phase ++ l.queue) ≡ l.pushed
  -- A task that waits has its wakeup, or a thread that is about to write one, except while the loop
  -- will come to doTask anyway.
  pub woken : is_handling l.phase ≡ false → l.queue ≢ [] → 0 < l.counter + l.waking
  -- So has a quit, while the loop sleeps, or its thread is still to test doingTask_.
  pub quit_woken : l.phase ≡ polling → l.quit_flag ≡ true → 0 < l.counter + l.waking + l.quitting

order_push :
    (ran now queue pushed : List ℕ) (f : ℕ)
    → ran ++ (now ++ queue) ≡ pushed
    → ran ++ (now ++ (queue ++ f ∷ [])) ≡ pushed ++ f ∷ []
order_push ran now queue pushed f e = rw (← e) (simp append_assoc)

Step-Inv : {l m : Loop} → Step l m → Inv l → Inv m
unfolding start push_task push_task_there quit begin_tasks
Step-Inv {l} (starts e) v =
    let o = v.order in
    let w = v.woken in record { order = ground arith; woken = ground arith; quit_woken = λ _ q. cc }
Step-Inv {l} (pushes_here f e) v =
    ground (arith, order_push l.ran (running l.phase) l.queue l.pushed f v.order)
Step-Inv {l} (pushes_there f) v =
    ground (arith, order_push l.ran (running l.phase) l.queue l.pushed f v.order)
Step-Inv {l} (wakes_there h) v = ground arith
Step-Inv {l} (quits_here e) v = ground arith
Step-Inv {l} quits_there v = ground arith
Step-Inv {l} (tests_there h) v = ground arith
Step-Inv {l} (times_out e) v = ground arith
Step-Inv {l} (fails e) v = ground arith
Step-Inv {l} (wakes e) v = ground arith
Step-Inv {l} (reads e) v = ground arith
Step-Inv {l} (begins n e) v = ground (arith, append-nil l.queue)
Step-Inv {l} (runs f fs e) v = ground (arith, append_assoc l.ran (f ∷ []) (fs ++ l.queue))
Step-Inv {l} (ends e) v = ground arith

initial-Inv : Inv initial
initial-Inv = record { order = refl; woken = λ _ h. absurd (h refl); quit_woken = λ e _. cc }

-- In every state that the loop reaches, whatever its own thread and others do and in whatever order,
-- if its own thread pushes and quits only from callbacks and tasks: the tasks run, those that doTask
-- has swapped out and those queued are the tasks pushed, in order and each once; where a task is
-- queued, the eventfd is readable or another thread is in pushTask or quit in front of its wakeup,
-- unless the loop is about to swap the queue out; and where quit_ is set while the loop waits for
-- events, the same holds or another thread is in quit in front of its test of doingTask_.
pub Reach-Inv : {l : Loop} → Reach l → Inv l
Reach-Inv here = initial-Inv
Reach-Inv (then_step r s) = Step-Inv s (Reach-Inv r)

-- epoll_wait timing out `n` times in a row.
abbrev pub times_out_often : ℕ → Loop → Loop
times_out_often zero l = l
times_out_often (suc n) l = times_out_often n (again l)

idle_polling :
    (n : ℕ) (l : Loop)
    → l.phase ≡ polling
    → l.quit_flag ≡ false
    → (times_out_often n l).queue ≡ l.queue
      × (times_out_often n l).counter ≡ l.counter
      × (times_out_often n l).ran ≡ l.ran
idle_polling zero l p q = (refl, refl, refl)
idle_polling (suc n) l p q = ground (arith, idle_polling n (again l))

-- A task that the loop's own thread pushes before it calls loop() has no wakeup: however often
-- epoll_wait times out, the task stays queued, nothing has run, and the counter is as it was.
push_task_before_loop :
    (n f : ℕ) (l : Loop)
    → l.phase ≡ outside
    → let m = times_out_often n (start (push_task f l)) in
      (m.queue ≡ l.queue ++ f ∷ []) × (m.counter ≡ l.counter) × (m.ran ≡ l.ran)
unfolding start push_task
push_task_before_loop n f l e = ground (arith, idle_polling n (start (push_task f l)))
