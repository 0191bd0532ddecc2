-- ===== src/App/Screens.antt =====
-- The screens of src/main.rs and its menu.
pub mod Info
pub mod Deactivate
pub mod Suffix
pub mod Activate
pub mod Menu
pub mod Asks
pub mod Calm
pub mod Keys
mod Tests
