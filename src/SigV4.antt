-- ===== src/SigV4.antt =====
-- internal/sigv4
pub mod Errors
pub mod Encode
pub mod Scope
pub mod Canonical
pub mod Clock
pub mod AmzDate
pub mod AuthHeader
pub mod Verify
pub mod Presign
pub mod Chunked
pub mod Tests
