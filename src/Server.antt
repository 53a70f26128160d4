-- ===== src/Server.antt =====
-- engine/src/lib.rs: the server.
pub mod Headers
pub mod Static
pub mod Inside
pub mod App
pub mod Dispatch
pub mod Group
pub mod Send
pub mod Answers
pub mod Requests
pub mod Connection
pub mod Chain
pub mod H2
pub mod Listener
mod Tests
