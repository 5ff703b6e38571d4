-- ===== src/Reactor/Loop.antt =====
-- src/slite/EventLoop.cc: loop, quit, wakeup, runTask, pushTask, handleRead and doTask. A task is a
-- number that stands for its functor; what it does is the steps that follow. The eventfd is the
-- kernel's counter: a write adds one, a read sets it to 0, and a positive counter makes epoll_wait
-- return. pushTask and quit of another thread are several steps, between which the loop and others
-- go on: only push_back stands under the mutex. On the loop's own thread they are one step, as only
-- other threads can come between, and neither read the counter nor change doingTask_.
pub mod Tasks
mod Tests
use serverlite.Base.{
  ℕ, zero, suc, ◌+◌, ◌-◌, ◌*◌, ◌≤◌, ◌<◌, ◌≡◌, Bool, true, false, not, ◌||◌, List, [], ◌∷◌, ◌++◌,
  if◌then◌else◌, ◌==◌,
}

-- Where the loop's thread stands: outside loop(), in epoll_wait, handling the ready channels, or in
-- doTask with the functors that it has swapped out and not yet run.
pub data Phase : Type 0 where
  outside polling handling : Phase
  tasks : List ℕ → Phase

-- `waking` are the other threads that are in front of wakeup(), and `quitting` those in quit()
-- between its assignment and its test. `ran` and `pushed` are the tasks run and the tasks pushed so
-- far, in order.
pub record Loop : Type 0 where
  pub phase : Phase
  pub quit_flag : Bool
  pub counter : ℕ
  pub waking : ℕ
  pub quitting : ℕ
  pub queue : List ℕ
  pub events_size : ℕ
  pub ran : List ℕ
  pub pushed : List ℕ

-- EventLoop::EventLoop.
abbrev pub initial : Loop
initial = record {
  phase = outside;
  quit_flag = false;
  counter = 0;
  waking = 0;
  quitting = 0;
  queue = [];
  events_size = 32;
  ran = [];
  pushed = [];
}

-- doingTask_.
abbrev pub doing_task : Phase → Bool
doing_task (tasks fs) = true
doing_task _ = false

abbrev pub wakeup : Loop → Loop
wakeup l = record l { counter = l.counter + 1 }

-- The block of pushTask under the mutex.
abbrev pub push_back : ℕ → Loop → Loop
push_back f l = record l { queue = l.queue ++ f ∷ []; pushed = l.pushed ++ f ∷ [] }

-- pushTask in the loop's thread.
pub push_task : ℕ → Loop → Loop
push_task f l = let l1 = push_back f l in if doing_task l1.phase then wakeup l1 else l1

-- pushTask in another thread, up to wakeup().
pub push_task_there : ℕ → Loop → Loop
push_task_there f l = let l1 = push_back f l in record l1 { waking = l1.waking + 1 }

-- wakeup() of another thread.
abbrev pub wake_there : Loop → Loop
wake_there l = record (wakeup l) { waking = l.waking - 1 }

-- runTask: in the loop's thread the task runs at once, and is none of the queue's.
pub run_task : Bool → ℕ → Loop → Loop
unfolding push_task_there
run_task in_loop f l = if in_loop then l else push_task_there f l

-- quit in the loop's thread.
pub quit : Loop → Loop
quit l =
    let l1 = record l { quit_flag = true } in if not (doing_task l.phase) then wakeup l1 else l1

-- quit in another thread: the assignment, and the test behind it.
abbrev pub quit_there : Loop → Loop
quit_there l = record l { quit_flag = true; quitting = l.quitting + 1 }

abbrev pub test_there : Loop → Loop
test_there l =
    let l1 = record l { quitting = l.quitting - 1 } in
    if not (doing_task l.phase) then record l1 { waking = l1.waking + 1 } else l1

-- The start of loop().
pub start : Loop → Loop
start l = record l { phase = polling; quit_flag = false }

-- The test of the while loop, at its top.
abbrev pub again : Loop → Loop
again l = record l { phase = if l.quit_flag then outside else polling }

-- After the ready channels: the event list grows if it was full, and doTask swaps the queue out.
pub begin_tasks : ℕ → Loop → Loop
begin_tasks num_events l = record l {
  phase = tasks l.queue;
  queue = [];
  events_size = if num_events == l.events_size then l.events_size * 2 else l.events_size;
}

-- Whether callbacks or tasks are running, which is when the loop's thread calls pushTask.
abbrev pub in_callbacks : Phase → Bool
in_callbacks handling = true
in_callbacks (tasks fs) = true
in_callbacks _ = false

-- One step of the loop's thread or of another one. epoll_wait times out, fails, or returns with
-- ready channels; `reads` is handleRead, the callback of the wakeup channel.
pub data Step (l : Loop) : Loop → Type 0 where
  starts : l.phase ≡ outside → Step l (start l)
  pushes_here : (f : ℕ) → in_callbacks l.phase ≡ true → Step l (push_task f l)
  pushes_there : (f : ℕ) → Step l (push_task_there f l)
  wakes_there : 0 < l.waking → Step l (wake_there l)
  quits_here : in_callbacks l.phase ≡ true → Step l (quit l)
  quits_there : Step l (quit_there l)
  tests_there : 0 < l.quitting → Step l (test_there l)
  times_out : l.phase ≡ polling → Step l (again l)
  fails : l.phase ≡ polling → Step l (record l { phase = outside })
  wakes : l.phase ≡ polling → Step l (record l { phase = handling })
  reads : l.phase ≡ handling → Step l (record l { counter = 0 })
  begins : (num_events : ℕ) → l.phase ≡ handling → Step l (begin_tasks num_events l)
  runs :
      (f : ℕ) (fs : List ℕ)
      → l.phase ≡ tasks (f ∷ fs)
      → Step l (record l { phase = tasks fs; ran = l.ran ++ f ∷ [] })
  ends : l.phase ≡ tasks [] → Step l (again l)

pub data Reach : Loop → Type 0 where
  here : Reach initial
  then_step : {l m : Loop} → Reach l → Step l m → Reach m
