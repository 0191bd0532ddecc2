-- ===== src/Http.antt =====
-- src/http.rs: requests to /wsman over an LME session. The flag against re-entry has no
-- counterpart: there is one thread, and no call leads back.
pub mod Message
pub mod Chunked
pub mod Parse
pub mod Digest
pub mod Post
mod Tests
