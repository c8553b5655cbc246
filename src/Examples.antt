-- ===== src/Examples.antt =====
-- Tests: the properties at concrete inputs.
pub mod Registry
pub mod Records
pub mod Paths
pub mod Serving
pub mod Pulling
pub mod Gate
pub mod Folders
pub mod Together
pub mod Tickets
pub mod Dialing
pub mod Keys
pub mod Receiving
