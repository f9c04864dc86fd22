-- ===== src/Utils.antt =====
-- src/utils: rounding up to a power of two, and the clock.
pub mod Round
pub mod RoundLaws
pub mod Time
mod Tests
