-- ===== src/Shape.antt =====
-- internal/shape: filters, shape logs, shape instances and the registry.
pub mod Error
pub mod Log
pub mod Filter
pub mod Key
pub mod Instance
pub mod Registry
pub mod Apply
