-- ===== src/Reactor/Thread.antt =====
-- src/slite/EventLoopThread.cc: the handshake of startLoop with threadFunc, and the destructor, as steps
-- of two threads. A block under the mutex is one step. loop_ is a flag, whether it is set. Whoever
-- holds the loop, as a callback in it or from startLoop, can set its quit_; loop() of
-- src/slite/EventLoop.cc resets it, and is left where it is set or epoll_wait fails. The
-- destructor of an object whose thread was never started has nothing to join and is left out.
pub mod Joining
mod Tests
use serverlite.Base.{◌≡◌, Bool, true, false, Option, some, none, if◌then◌else◌}

-- Where threadFunc is: not yet begun, before its first block, before loop(), in loop(), before its
-- last block, and returned.
pub data Phase : Type 0 where
  unborn constructing published looping left finished : Phase

pub record EventLoopThread : Type 0 where
  pub phase : Phase
  pub loop : Bool
  pub quit_flag : Bool
  -- What startLoop returned: whether the pointer is set.
  pub returned : Option Bool
  -- The destructor has tested loop_, and joins.
  pub joining : Bool

-- EventLoopThread::EventLoopThread.
abbrev pub make_thread : EventLoopThread
make_thread = record {
  phase = unborn;
  loop = false;
  quit_flag = false;
  returned = none;
  joining = false;
}

-- The blocks of threadFunc, and loop() between them.
pub publish : EventLoopThread → EventLoopThread
publish t = record t { phase = published; loop = true }

pub begin_loop : EventLoopThread → EventLoopThread
begin_loop t = record t { phase = looping; quit_flag = false }

pub clear : EventLoopThread → EventLoopThread
clear t = record t { phase = finished; loop = false }

-- The destructor, up to join().
pub destroy : EventLoopThread → EventLoopThread
destroy t = record t { quit_flag = if t.loop then true else t.quit_flag; joining = true }

pub data Step (t : EventLoopThread) : EventLoopThread → Type 0 where
  spawns : t.phase ≡ unborn → Step t (record t { phase = constructing })
  publishes : t.phase ≡ constructing → Step t (publish t)
  returns : t.loop ≡ true → t.returned ≡ none → Step t (record t { returned = some t.loop })
  begins : t.phase ≡ published → Step t (begin_loop t)
  leaves : t.phase ≡ looping → t.quit_flag ≡ true → Step t (record t { phase = left })
  -- epoll_wait fails, as it does where a signal interrupts it.
  breaks : t.phase ≡ looping → Step t (record t { phase = left })
  -- Somebody else calls quit of the loop.
  quits : t.loop ≡ true → Step t (record t { quit_flag = true })
  clears : t.phase ≡ left → Step t (clear t)
  destroys : t.returned ≡ some true → t.joining ≡ false → Step t (destroy t)

pub data Runs (t : EventLoopThread) : EventLoopThread → Type 0 where
  here : Runs t t
  then_step : {u v : EventLoopThread} → Runs t u → Step u v → Runs t v
