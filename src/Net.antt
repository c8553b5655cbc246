-- ===== src/Net.antt =====
-- crates/mascara-net: errors, the path guards and the pulls of engine.rs, and the serving side, listener.rs.
pub mod Error
pub mod PathGuard
pub mod Listener
pub mod Response
pub mod Pull
pub mod Wire
pub mod Fetch
pub mod Folder
pub mod Dialer
