-- ===== src/Reactor/Thread/Tests.antt =====
-- Runs of an EventLoopThread.
use serverlite.Base.{◌≡◌, refl, true, some}
use serverlite.Reactor.Thread.{
  EventLoopThread, make_thread, looping, left, publish, begin_loop, clear, destroy, spawns,
  publishes, returns, Runs, here, then_step,
}
use serverlite.Reactor.Thread.Joining.{Inv, Runs-Inv, destroy_in_two_orders}

abbrev up : EventLoopThread
up = record (publish make_thread) { returned = some true }

reached : Runs make_thread up
unfolding publish
reached = then_step (then_step (then_step here (spawns refl)) (publishes refl)) (returns refl refl)

Runs-Inv_example : Inv up
Runs-Inv_example = Runs-Inv reached

-- Nothing but the destructor, before the loop or in it.
destroy_in_two_orders_example :
    (Runs up (begin_loop (destroy up)))
    × ((begin_loop (destroy up)).phase ≡ looping)
    × Runs up (clear (record (destroy (begin_loop up)) { phase = left }))
unfolding publish
destroy_in_two_orders_example =
    destroy_in_two_orders up (begin_loop (destroy up)) refl refl refl refl here tt
