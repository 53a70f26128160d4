-- ===== src/SocketIo.antt =====
-- engine/src/core/socketio: the real-time server.
pub mod EngineIo
pub mod Json
pub mod Sample
pub mod Packet
pub mod Query
pub mod Sessions
pub mod Server
pub mod Client
pub mod Rooms
pub mod Redis
pub mod Adapter
pub mod Cluster
