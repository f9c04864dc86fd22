-- ===== src/Xpoll.antt =====
-- src/event/xpoll.c, the implementation over poll(2).
pub mod Poll
pub mod Kqueue
pub mod KqueueLaws
pub mod Wait
pub mod WaitLaws
pub mod WaitNext
pub mod Valid
pub mod Laws
pub mod Remove
pub mod RemoveLast
mod KqueueTests
mod Tests
