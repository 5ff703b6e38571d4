-- ===== src/ThreadPool/Waking.antt =====
-- The callers of run of src/slite/ThreadPool.cc that wait on notFull_.
use serverlite.Base.{
  ℕ, suc, ◌+◌, ◌≤◌, ◌<◌, ◌≡◌, ◌≢◌, ◌⊎◌, inl, inr, refl, sym, ◌∙◌, subst, arith, Bool, true, false,
  Option, some, none, List, [], ◌∷◌, ◌++◌, length, length-append,
}
use serverlite.ThreadPool.{
  Pool, run, take, Callers, Threads, Notified, silent, nobody, one, Step, runs, stops, tests, takes,
  executes, sleeps, goes_on, sleeps_again, wakes, Steps, stays, then_step, started,
}

-- What holds while a caller sleeps and `w` others were woken: the pool runs, and the tasks in the
-- queue and the woken callers together are as many as fit.
record IsAwake (p : Pool) (w : ℕ) : Type 0 where
  running : p.running ≡ true
  threaded : p.num_threads ≢ 0
  bounded : 0 < p.max_queue_size
  noticed : p.max_queue_size ≤ length p.queue + w

abbrev Inv : Threads → Type 0
Inv t = t.callers.asleep ≢ [] → IsAwake t.pool (length t.callers.woken)

run_waits : (f : ℕ) (p : Pool) (w : ℕ) → run f p ≡ none → IsAwake p w
unfolding run
run_waits f p w e = record {
  running = ground arith;
  threaded = λ q. ground arith;
  bounded = ground arith;
  noticed = ground arith;
}

run-IsAwake : (f : ℕ) (p p' : Pool) (w : ℕ) → run f p ≡ some p' → IsAwake p (suc w) → IsAwake p' w
unfolding run
run-IsAwake f p p' w e a =
    let r = a.running in
    let t = a.threaded in
    let b = a.bounded in
    let n = a.noticed in
    let added = length-append p.queue (f ∷ []) in
    record {
      running = ground (arith, added);
      threaded = λ q. t (ground arith);
      bounded = ground arith;
      noticed = ground (arith, added);
    }

more_woken : (p : Pool) (w : ℕ) → IsAwake p w → IsAwake p (suc w)
more_woken p w a =
    let n = a.noticed in
    record {
      running = a.running;
      threaded = a.threaded;
      bounded = a.bounded;
      noticed = omega (arith, n);
    }

take_on :
    (q : List ℕ) (p p' : Pool) (f : Option ℕ) (b : Bool) (w : ℕ)
    → p.queue ≡ q
    → take p ≡ some (f, p', b)
    → IsAwake p w
    → (b ≡ true) × IsAwake p' (suc w)
unfolding take
take_on [] p p' f b w e h a = let r = a.running in absurd (ground arith)
take_on (x ∷ q) p p' f b w e h a =
    let r = a.running in
    let t = a.threaded in
    let m = a.bounded in
    let n = a.noticed in
    (
      ground arith,
      record {
        running = ground arith;
        threaded = λ z. t (ground arith);
        bounded = ground arith;
        noticed = ground arith;
      },
    )

split_some : (before : List ℕ) (f : ℕ) (behind : List ℕ) → before ++ f ∷ behind ≢ []
split_some [] f behind e = cc
split_some (x ∷ before) f behind e = cc

-- A list without one of its elements.
without :
    (l before : List ℕ) (f : ℕ) (behind : List ℕ)
    → l ≡ before ++ f ∷ behind
    → length l ≡ suc (length (before ++ behind))
without l before f behind e =
    rw (e) (omega (arith, length-append before (f ∷ behind), length-append before behind))

Notified-IsAwake :
    (c c' : Callers) (p : Pool)
    → Notified c true c'
    → (c.asleep ≢ [] → IsAwake p (suc (length c.woken)))
    → c'.asleep ≢ []
    → IsAwake p (length c'.woken)
Notified-IsAwake c c' p (nobody e) v h = absurd (h e)
Notified-IsAwake c c' p (one before f behind e) v h =
    v (λ q. split_some before f behind (sym e ∙ q))

Step-Inv : {t u : Threads} → Step t u → Inv t → Inv u
Step-Inv {t} (runs f p e) v h =
    let w = length t.callers.woken in run-IsAwake f t.pool p w e (more_woken t.pool w (v h))
Step-Inv {t} (sleeps f e) v h = run_waits f t.pool (length t.callers.woken) e
Step-Inv {t} (goes_on before f behind p w e) v h =
    run-IsAwake f t.pool p (length (before ++ behind)) e
      (subst (IsAwake t.pool) (without t.callers.woken before f behind w) (v h))
Step-Inv {t} (sleeps_again before f behind w e) v h =
    run_waits f t.pool (length (before ++ behind)) e
Step-Inv {t} (wakes c n) v h =
    Notified-IsAwake t.callers c t.pool n (λ k. more_woken t.pool (length t.callers.woken) (v k)) h
Step-Inv {t} stops v h = absurd (h refl)
Step-Inv {t} (tests i e) v h = v h
Step-Inv {t} (takes i f p false c w e silent) v h =
    let (notified, a) =
      take_on t.pool.queue t.pool p f false (length t.callers.woken) refl e (v h) in
    absurd (cc)
Step-Inv {t} (takes i f p true c w e n) v h =
    Notified-IsAwake t.callers c p n
      (λ k. (take_on t.pool.queue t.pool p f true (length t.callers.woken) refl e (v k)).1) h
Step-Inv {t} (executes i f w) v h =
    let a = v h in
    record { running = a.running; threaded = a.threaded; bounded = a.bounded; noticed = a.noticed }

Steps-Inv_on : {t u : Threads} → Steps t u → Inv t → Inv u
Steps-Inv_on stays v = v
Steps-Inv_on (then_step r s) v = Step-Inv s (Steps-Inv_on r v)

take_notifies :
    (q : List ℕ) (p : Pool)
    → p.queue ≡ q
    → 0 < p.max_queue_size
    → q ≢ []
    → (g : ℕ) × (p' : Pool) × (take p ≡ some (some g, p', true))
unfolding take
take_notifies [] p w m h = absurd (h refl)
take_notifies (x ∷ q) p w m h = (x, record p { queue = q; taken = p.taken ++ x ∷ [] }, ground arith)

run_free :
    (f : ℕ) (p : Pool)
    → p.queue ≡ []
    → p.running ≡ true
    → p.num_threads ≢ 0
    → 0 < p.max_queue_size
    → run f p ≡ some (record p { queue = p.queue ++ f ∷ []; accepted = p.accepted ++ f ∷ [] })
unfolding run
run_free f p e r t m = ground arith

-- In every state that a started pool reaches, however callers, workers and stop interleave, while a
-- caller of run sleeps on notFull_: the tasks in the queue, with the callers that were woken there and
-- have not tested again, are at least maxQueueSize_, so that no free place goes unnoticed. And one of
-- the two can go on: take hands out a task and notifies notFull_, which wakes a sleeper, or, where the
-- queue is empty, there is a woken caller whose task is queued when it tests.
pub run_unblocks :
    (num_threads max_size : ℕ) (t : Threads)
    → Steps (started num_threads max_size) t
    → t.callers.asleep ≢ []
    → (t.pool.max_queue_size ≤ length t.pool.queue + length t.callers.woken)
      × (((g : ℕ) × (p : Pool) × (take t.pool ≡ some (some g, p, true)))
          ⊎ ((f : ℕ) × (fs : List ℕ) × (p : Pool) × (t.callers.woken ≡ f ∷ fs)
              × (run f t.pool ≡ some p)
              × (p.accepted ≡ t.pool.accepted ++ f ∷ [])))
run_unblocks n m t r h =
    let a = Steps-Inv_on r (λ none_yet. absurd (none_yet refl)) h in
    (a.noticed, goes t.pool.queue t.callers.woken refl refl a)
  where
    goes :
        (q w : List ℕ)
        → t.pool.queue ≡ q
        → t.callers.woken ≡ w
        → IsAwake t.pool (length t.callers.woken)
        → ((g : ℕ) × (p : Pool) × (take t.pool ≡ some (some g, p, true)))
          ⊎ ((f : ℕ) × (fs : List ℕ) × (p : Pool) × (t.callers.woken ≡ f ∷ fs)
              × (run f t.pool ≡ some p)
              × (p.accepted ≡ t.pool.accepted ++ f ∷ []))
    goes (x ∷ q) w e d a = inl (take_notifies (x ∷ q) t.pool e a.bounded (λ z. cc))
    goes [] [] e d a = let b = a.bounded in let n = a.noticed in absurd (ground arith)
    goes [] (f ∷ fs) e d a = inr (
      f,
      fs,
      record t.pool { queue = t.pool.queue ++ f ∷ []; accepted = t.pool.accepted ++ f ∷ [] },
      d,
      run_free f t.pool e a.running a.threaded a.bounded,
      refl,
    )
