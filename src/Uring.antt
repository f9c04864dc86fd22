-- ===== src/Uring.antt =====
-- src/event/xio_uring.c, the I/O context over io_uring.
pub mod Data
pub mod Request
pub mod Wait
pub mod FreeList
pub mod FreeWalk
pub mod Buffers
pub mod Laws
pub mod FreeAll
pub mod Drain
pub mod Life
pub mod LifeLaws
mod Tests
mod LifeTests
