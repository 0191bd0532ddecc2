-- ===== src/Heci.antt =====
-- src/heci (UEFI target): the registers of the host interface and messages over its two rings.
pub mod Regs
pub mod Device
pub mod Write
pub mod Read
pub mod Startup
pub mod Hbm
pub mod Linux
pub mod Windows
pub mod Client
pub mod Instance
mod Tests
