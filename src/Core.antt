-- ===== src/Core.antt =====
-- crates/mascara-core: errors, the stores on disk, the ticket registry, the transfer history, tickets,
-- manifests and the content check.
pub mod Error
pub mod Disk
pub mod Store
pub mod Registry
pub mod History
pub mod Card
pub mod Keystore
pub mod Ticket
pub mod Manifest
pub mod Share
pub mod ContentCheck
