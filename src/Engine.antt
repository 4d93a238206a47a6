-- ===== src/Engine.antt =====
-- engine.go: the parts that pass changes on to sessions, and what their clients ask for.
pub mod Error
pub mod Key
pub mod Session
pub mod Dispatch
pub mod Subscribe
pub mod Request
pub mod Cursor
pub mod Supervise
