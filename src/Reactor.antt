-- ===== src/Reactor.antt =====
-- The event loop of slite: channels and their registration with epoll, tasks and timers.
pub mod Channel
pub mod Loop
pub mod Thread
pub mod Timer
