-- ===== src/Htable.antt =====
-- src/hash/htable.c and htable.h: the open-addressing table, generic in its keys.
pub mod Table
pub mod Cycle
pub mod Live
pub mod Index
pub mod Probe
pub mod Search
pub mod FindSlot
pub mod Rehash
pub mod Ops
pub mod Valid
pub mod Links
pub mod Insert
pub mod Get
pub mod Delete
pub mod Order
pub mod OrderLinks
pub mod OrderUnlink
pub mod Ordered
pub mod OrderRemove
pub mod OrderLaws
pub mod Set
pub mod FindEmpty
pub mod Move
pub mod Grow
pub mod Laws
pub mod History
pub mod Create
pub mod IntKeys
pub mod Client
mod Tests
mod OrderTests
