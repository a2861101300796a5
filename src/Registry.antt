-- ===== src/Registry.antt =====
-- internal/controlplane: the tenant registry, its lifecycle and its store.
pub mod Status
pub mod Store
pub mod Reads
pub mod Lifecycle
pub mod Invariant
mod Examples
