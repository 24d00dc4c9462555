-- ===== src/Timers.antt =====
-- Common/timermgr.c: the timers of the MME.
pub mod Timer
pub mod Expiry
mod Runs
