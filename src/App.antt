-- ===== src/App.antt =====
-- The log buffer and the formatting of src/main.rs, and the line input of src/ui.rs.
pub mod Utf8
pub mod Machine
pub mod Log
pub mod Format
pub mod Input
pub mod Screens
mod Tests
