-- ===== src/Util.antt =====
-- pkg/service/util: the spin lock, and the delays of the loop that calls again what has failed.
pub mod SpinLock
pub mod UntilCanceled
