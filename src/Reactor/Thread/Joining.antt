-- ===== src/Reactor/Thread/Joining.antt =====
-- Whether the join of the destructor of src/slite/EventLoopThread.cc returns.
use serverlite.Base.{◌≡◌, ◌≢◌, refl, arith, Bool, true, false, some}
use serverlite.Reactor.Thread.{
  Phase, published, looping, left, EventLoopThread, make_thread, publish, begin_loop, clear,
  destroy, Step, spawns, publishes, returns, begins, leaves, breaks, quits, clears, destroys, Runs,
  here, then_step,
}

abbrev pub is_live : Phase → Bool
is_live published = true
is_live looping = true
is_live left = true
is_live _ = false

pub record Inv (t : EventLoopThread) : Type 0 where
  pub alive : t.loop ≡ is_live t.phase
  pub given : t.returned ≢ some false

Step-Inv : {t u : EventLoopThread} → Step t u → Inv t → Inv u
unfolding publish begin_loop clear destroy
Step-Inv {t} (spawns e) v = let a = v.alive in record { alive = ground arith; given = v.given }
Step-Inv {t} (publishes e) v = record { alive = refl; given = v.given }
Step-Inv {t} (returns e n) v = record { alive = v.alive; given = λ q. cc }
Step-Inv {t} (begins e) v = let a = v.alive in record { alive = ground arith; given = v.given }
Step-Inv {t} (leaves e q) v = let a = v.alive in record { alive = ground arith; given = v.given }
Step-Inv {t} (breaks e) v = let a = v.alive in record { alive = ground arith; given = v.given }
Step-Inv {t} (quits e) v = record { alive = v.alive; given = v.given }
Step-Inv {t} (clears e) v = record { alive = refl; given = v.given }
Step-Inv {t} (destroys d e) v = record { alive = v.alive; given = v.given }

-- In every state that a new EventLoopThread reaches, however its threads interleave: loop_ is set
-- exactly from its publication to the last block of threadFunc, while the loop exists, and
-- startLoop has returned no null pointer.
pub Runs-Inv : {t : EventLoopThread} → Runs make_thread t → Inv t
Runs-Inv here = record { alive = refl; given = λ e. cc }
Runs-Inv (then_step r s) = Step-Inv s (Runs-Inv r)

-- A thread in loop() with quit_ reset and the destructor past its test.
record Stuck (t : EventLoopThread) : Type 0 where
  pub in_loop : t.phase ≡ looping
  pub no_quit : t.quit_flag ≡ false
  pub joins : t.joining ≡ true

-- Neither a failure of epoll_wait nor a quit by somebody else.
abbrev pub IsCalm : {t u : EventLoopThread} → Step t u → Type 0
IsCalm (breaks e) = ⊥
IsCalm (quits e) = ⊥
IsCalm _ = Unit

abbrev pub AllCalm : {t u : EventLoopThread} → Runs t u → Type 0
AllCalm here = Unit
AllCalm (then_step r s) = AllCalm r × IsCalm s

Step-Stuck : {t u : EventLoopThread} (e : Step t u) → IsCalm e → Stuck t → Stuck u
unfolding publish begin_loop clear destroy
Step-Stuck (spawns e) q s = let i = s.in_loop in absurd (cc)
Step-Stuck (publishes e) q s = let i = s.in_loop in absurd (cc)
Step-Stuck (returns e n) q s = record { in_loop = s.in_loop; no_quit = s.no_quit; joins = s.joins }
Step-Stuck (begins e) q s = let i = s.in_loop in absurd (cc)
Step-Stuck (leaves e f) q s = let n = s.no_quit in absurd (cc)
Step-Stuck (breaks e) q s = absurd q
Step-Stuck (quits e) q s = absurd q
Step-Stuck (clears e) q s = let i = s.in_loop in absurd (cc)
Step-Stuck (destroys d e) q s = let j = s.joins in absurd (cc)

Runs-Stuck : {t u : EventLoopThread} (r : Runs t u) → AllCalm r → Stuck t → Stuck u
Runs-Stuck here q s = s
Runs-Stuck (then_step r e) q s = Step-Stuck e q.1 (Runs-Stuck r q.0 s)

-- The destructor after startLoop, which can run before the new thread comes to loop() and after. In
-- the first order loop() resets the quit, and in any run from there in which epoll_wait does not fail
-- and nobody else calls quit, threadFunc stays in loop(), so that join() does not return. In the
-- second order it can return.
pub destroy_in_two_orders :
    (t u : EventLoopThread)
    → t.phase ≡ published
    → t.loop ≡ true
    → t.returned ≡ some true
    → t.joining ≡ false
    → (r : Runs (begin_loop (destroy t)) u) → AllCalm r
    → (Runs t (begin_loop (destroy t)))
      × (u.phase ≡ looping)
      × Runs t (clear (record (destroy (begin_loop t)) { phase = left }))
unfolding destroy begin_loop clear
destroy_in_two_orders t u up set given alone r calm = (
  then_step (then_step here (destroys given alone)) (begins up),
  (Runs-Stuck r calm (record { in_loop = refl; no_quit = refl; joins = refl })).in_loop,
  then_step
      (then_step (then_step (then_step here (begins up)) (destroys given alone))
        (leaves refl (rw set)))
      (clears refl),
)
