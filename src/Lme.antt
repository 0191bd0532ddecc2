-- ===== src/Lme.antt =====
-- src/lme: the APF session over the LME client of the management engine.
pub mod Apf
pub mod Frames
pub mod Transport
pub mod Session
pub mod Process
pub mod Channel
pub mod Script
mod Tests
