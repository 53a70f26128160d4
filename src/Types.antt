-- ===== src/Types.antt =====
-- engine/src/types/definitions.rs and core/error.rs: the tables of status codes, header names and
-- methods, and the errors of the engine.
pub mod Status
pub mod Names
pub mod Error
