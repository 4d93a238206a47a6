-- ===== src/Engine/Supervise/Tick.antt =====
-- A tick that restarts the consumer, up to the next slot.
use tether.Wal.Catalog.{Slot, Catalog}
