-- ===== src/ThreadPool/Order.antt =====
-- The queue of src/slite/ThreadPool.cc: order and bound.
use serverlite.Base.{
  ap, ◌∙◌, ℕ, ◌≤◌, ◌<◌, ◌≡◌, refl, arith, Bool, Option, some, none, List, [], ◌∷◌, ◌++◌, length,
  length-append, if◌then◌else◌, ◌==◌, append_assoc,
}
use serverlite.ThreadPool.{
  Pool, run, take, pop_front, stop, Threads, Step, runs, stops, tests, takes, executes, sleeps,
  goes_on, sleeps_again, wakes, Steps, stays, then_step, started,
}

pub record Inv (p : Pool) : Type 0 where
  -- What was queued has been handed out or waits, in that order.
  pub order : p.taken ++ p.queue ≡ p.accepted
  pub bounded : 0 < p.max_queue_size → length p.queue ≤ p.max_queue_size

run-Inv : (f : ℕ) (p p' : Pool) → run f p ≡ some p' → Inv p → Inv p'
unfolding run
run-Inv f p p' e v =
    ground (arith, length-append p.queue (f ∷ []), append_assoc p.taken p.queue (f ∷ []))

take-Inv_on :
    (q : List ℕ) (p p' : Pool) (f : Option ℕ) (b : Bool)
    → p.queue ≡ q
    → take p ≡ some (f, p', b)
    → Inv p
    → Inv p'
unfolding take
take-Inv_on [] p p' f b w e v = ground arith
take-Inv_on (x ∷ q) p p' f b w e v = ground (arith, append_assoc p.taken (x ∷ []) q)

take-Inv : (p p' : Pool) (f : Option ℕ) (b : Bool) → take p ≡ some (f, p', b) → Inv p → Inv p'
take-Inv p p' f b = take-Inv_on p.queue p p' f b refl

Step-Inv : {t u : Threads} → Step t u → Inv t.pool → Inv u.pool
Step-Inv {t} (runs f p e) v = run-Inv f t.pool p e v
Step-Inv {t} stops v = record { order = v.order; bounded = v.bounded }
Step-Inv {t} (tests i e) v = v
Step-Inv {t} (takes i f p b c w e n) v = take-Inv t.pool p f b e v
Step-Inv {t} (sleeps f e) v = v
Step-Inv {t} (goes_on before f behind p w e) v = run-Inv f t.pool p e v
Step-Inv {t} (sleeps_again before f behind w e) v = v
Step-Inv {t} (wakes c n) v = v
Step-Inv {t} (executes i f w) v = record { order = v.order; bounded = v.bounded }

Steps-Inv_on : {t u : Threads} → Steps t u → Inv t.pool → Inv u.pool
Steps-Inv_on stays v = v
Steps-Inv_on (then_step r s) v = Step-Inv s (Steps-Inv_on r v)

-- However callers and workers interleave, from the start of a pool on: the tasks that take handed out,
-- followed by those that wait, are the tasks that run queued, in the order of their arrival, and with
-- a bound set the queue is never longer than it.
pub Steps-Inv :
    (num_threads max_size : ℕ) {t : Threads} → Steps (started num_threads max_size) t → Inv t.pool
Steps-Inv n m r = Steps-Inv_on r (record { order = refl; bounded = λ _. omega arith })

abbrev pub first : List ℕ → Option ℕ
first [] = none
first (f ∷ fs) = some f

pop_front-first :
    (q : List ℕ) (p : Pool) → pop_front q p ≡ (first q, (pop_front q p).1, (pop_front q p).2)
unfolding pop_front
pop_front-first [] p = refl
pop_front-first (f ∷ fs) p = refl

take_stopped : (p : Pool) → take (stop p) ≡ some (pop_front p.queue (stop p))
unfolding take
take_stopped p = ground arith

-- Once stop was called, neither run nor take blocks: run queues nothing more, and take hands out the
-- first task that is left, if there is one.
pub stop_unblocks :
    (f : ℕ) (p : Pool)
    → (q : Pool) × (r : Pool) × (run f (stop p) ≡ some q)
      × (q.accepted ≡ p.accepted)
      × (q.queue ≡ p.queue)
      × (take (stop p) ≡ some (first p.queue, r, (pop_front p.queue (stop p)).2))
unfolding run
stop_unblocks f p = (
  if p.num_threads == 0 then record (stop p) { done = p.done ++ f ∷ [] } else stop p,
  (pop_front p.queue (stop p)).1,
  ground arith,
  ground arith,
  ground arith,
  take_stopped p ∙ ap some (pop_front-first p.queue (stop p)),
)
