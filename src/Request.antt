-- ===== src/Request.antt =====
-- engine/src/core/request.rs, with the request's types of engine/src/types/definitions.rs: a
-- buffer of bytes parsed to a request, a wait for more bytes, or an error.
pub mod Outcome
pub mod Uri
pub mod Head
pub mod Chunked
pub mod Protocol
pub mod Access
mod Percent
mod Fuel
pub mod Consumed
pub mod Bounds
pub mod Chunks
mod Tests
