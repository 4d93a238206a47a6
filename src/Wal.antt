-- ===== src/Wal.antt =====
-- internal/wal: the change type, and the consumer that persists before it acknowledges.
pub mod Change
pub mod Catalog
pub mod Slot
pub mod Publication
pub mod Error
pub mod Relation
pub mod Store
pub mod Consumer
pub mod Run
