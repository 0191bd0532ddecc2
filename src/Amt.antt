-- ===== src/Amt.antt =====
-- src/amt.rs: the PTHI commands. `Mei` is what they use of `HeciContext`; the delay before a call
-- is left out.
pub mod Mei
pub mod Versions
pub mod Getters
pub mod Safety
pub mod Status
pub mod Instance
mod Tests
