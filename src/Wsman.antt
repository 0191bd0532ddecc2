-- ===== src/Wsman.antt =====
-- src/wsman.rs: activation in client control mode by two calls over HTTP. The flag against
-- re-entry and what is logged have no counterpart.
pub mod Xml
pub mod Soap
pub mod Call
pub mod Activate
mod Tests
