-- ===== src/Server/Headers.antt =====
-- The headers that the server adds to every response: `apply_cors_headers` and
-- `apply_security_headers` of engine/src/lib.rs.
mod Defs
pub mod Cors
pub mod Security
mod Tests
unfoldable pub use Defs.*
