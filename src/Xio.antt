-- ===== src/Xio.antt =====
-- src/event/xio_xpoll.c, the I/O context over readiness events.
pub mod Pool
pub mod Prep
pub mod Results
pub mod PoolLaws
pub mod ResultLaws
pub mod Wait
pub mod WaitLaws
pub mod WaitTotal
pub mod Refused
pub mod Life
mod Tests
mod WaitTests
