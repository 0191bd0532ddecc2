-- ===== src/Ui.antt =====
-- src/ui.rs (UEFI target): text on the graphics console, and the boxes that the screens are made of.
pub mod Font
pub mod Screen
pub mod Box
mod Tests
