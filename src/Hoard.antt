-- ===== src/Hoard.antt =====
-- crates/hb-core: the gate of the earlier transfer protocol.
pub mod Gate
