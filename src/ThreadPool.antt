-- ===== src/ThreadPool.antt =====
-- src/slite/ThreadPool.h and ThreadPool.cc. A task is a number that stands for its functor. What
-- holds mutex_ is one step; `none` stands for a test that does not hold, so that the thread waits on
-- the condition. A caller that waits on notFull_ sleeps until it is notified, or wakes by itself, and
-- tests again then. A worker that waits on notEmpty_ has no step until its test holds: the notices
-- to it are not modelled. Exceptions of a task end the process and are not modelled.
pub mod Order
pub mod Waking
mod Tests
use serverlite.Base.{
  ℕ, ◌+◌, ◌<◌, Bool, true, false, not, ◌&&◌, ◌||◌, Option, some, none, List, [], ◌∷◌, ◌++◌, length,
  if◌then◌else◌, ltb, leb, is_empty, ◌==◌, ◌≡◌,
}

-- `accepted`, `taken` and `done` are the tasks that run queued, that take handed out, and that ended
-- or were run by the caller, in order.
pub record Pool : Type 0 where
  pub num_threads : ℕ
  pub max_queue_size : ℕ
  pub running : Bool
  pub queue : List ℕ
  pub accepted : List ℕ
  pub taken : List ℕ
  pub done : List ℕ

-- setMaxQueueSize, then start.
abbrev pub start : ℕ → ℕ → Pool
start num_threads max_size = record {
  num_threads = num_threads;
  max_queue_size = max_size;
  running = true;
  queue = [];
  accepted = [];
  taken = [];
  done = [];
}

-- isFull.
abbrev pub is_full : Pool → Bool
is_full p = ltb 0 p.max_queue_size && leb p.max_queue_size (length p.queue)

-- run.
pub run : ℕ → Pool → Option Pool
run f p =
    if p.num_threads == 0
    then some (record p { done = p.done ++ f ∷ [] })
    else if not (is_full p) || not p.running
    then (if not p.running
        then some p
        else some (record p { queue = p.queue ++ f ∷ []; accepted = p.accepted ++ f ∷ [] }))
    else none

-- The front of the queue, which is popped, or no task; and whether notFull_.notify_one() is called.
pub pop_front : List ℕ → Pool → Option ℕ × Pool × Bool
pop_front [] p = (none, p, false)
pop_front (f ∷ fs) p =
    (some f, record p { queue = fs; taken = p.taken ++ f ∷ [] }, ltb 0 p.max_queue_size)

-- take.
pub take : Pool → Option (Option ℕ × Pool × Bool)
unfolding pop_front
take p = if not (is_empty p.queue) || not p.running then some (pop_front p.queue p) else none

-- The flag that stop sets, before it notifies all.
abbrev pub stop : Pool → Pool
stop p = record p { running = false }

-- Where a thread of runInThread stands: at the test of its loop, in take, or in a task; or ended.
pub data Worker : Type 0 where
  testing taking ended : Worker
  executing : ℕ → Worker

-- The callers of run that sleep on notFull_, by their tasks, and those that were woken there and
-- have not tested again.
pub record Callers : Type 0 where
  pub asleep : List ℕ
  pub woken : List ℕ

pub record Threads : Type 0 where
  pub pool : Pool
  pub workers : ℕ → Worker
  pub callers : Callers

abbrev pub set_worker : ℕ → Worker → Pool → Threads → Threads
set_worker i w p t = record t { pool = p; workers = λ j. if i == j then w else t.workers j }

-- What take returned: `if (task) task();`.
abbrev pub to_execute : Option ℕ → Worker
to_execute none = testing
to_execute (some f) = executing f

abbrev pub wake_all : Callers → Callers
wake_all c = record { asleep = []; woken = c.asleep ++ c.woken }

-- notify_one, if it is called: one of the sleepers wakes, if there is one.
pub data Notified (c : Callers) : Bool → Callers → Type 0 where
  silent : Notified c false c
  nobody : c.asleep ≡ [] → Notified c true c
  one :
      (before : List ℕ) (f : ℕ) (behind : List ℕ)
      → c.asleep ≡ before ++ f ∷ behind
      → Notified c true (record { asleep = before ++ behind; woken = f ∷ c.woken })

-- One step of a caller or of a worker.
pub data Step (t : Threads) : Threads → Type 0 where
  runs : (f : ℕ) (p : Pool) → run f t.pool ≡ some p → Step t (record t { pool = p })
  sleeps :
      (f : ℕ)
      → run f t.pool ≡ none
      → Step t
          (record t { callers = record { asleep = f ∷ t.callers.asleep; woken = t.callers.woken } })
  -- A caller that was woken goes on, or sleeps again; one that sleeps wakes by itself.
  goes_on :
      (before : List ℕ) (f : ℕ) (behind : List ℕ) (p : Pool)
      → t.callers.woken ≡ before ++ f ∷ behind
      → run f t.pool ≡ some p
      → Step t (record t {
        pool = p;
        callers = record { asleep = t.callers.asleep; woken = before ++ behind };
      })
  sleeps_again :
      (before : List ℕ) (f : ℕ) (behind : List ℕ)
      → t.callers.woken ≡ before ++ f ∷ behind
      → run f t.pool ≡ none
      → Step t (record t {
        callers = record { asleep = f ∷ t.callers.asleep; woken = before ++ behind };
      })
  wakes : (c : Callers) → Notified t.callers true c → Step t (record t { callers = c })
  stops : Step t (record t { pool = stop t.pool; callers = wake_all t.callers })
  tests :
      (i : ℕ)
      → t.workers i ≡ testing
      → Step t (set_worker i (if t.pool.running then taking else ended) t.pool t)
  takes :
      (i : ℕ) (f : Option ℕ) (p : Pool) (notifies : Bool) (c : Callers)
      → t.workers i ≡ taking
      → take t.pool ≡ some (f, p, notifies)
      → Notified t.callers notifies c
      → Step t (record (set_worker i (to_execute f) p t) { callers = c })
  executes :
      (i f : ℕ)
      → t.workers i ≡ executing f
      → Step t (set_worker i testing (record t.pool { done = t.pool.done ++ f ∷ [] }) t)

pub data Steps : Threads → Threads → Type 0 where
  stays : {t : Threads} → Steps t t
  then_step : {t u v : Threads} → Steps t u → Step u v → Steps t v

-- The threads as start makes them.
abbrev pub started : ℕ → ℕ → Threads
started num_threads max_size = record {
  pool = start num_threads max_size;
  workers = λ i. if ltb i num_threads then testing else ended;
  callers = record { asleep = []; woken = [] };
}
