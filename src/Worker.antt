-- ===== src/Worker.antt =====
-- The runtime itself, loopevent_orig.cpp: what a worker process does with its shadow pages at the
-- start and the end of an iteration.
pub mod Shadow
pub mod Forward
pub mod Iteration
pub mod Start
pub mod Region
pub mod Invocation
pub mod Clean
mod Tests
