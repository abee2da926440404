-- ===== src/Controller.antt =====
-- internal/controller: admission of the workloads.
pub mod Validation
pub mod Children
pub mod World
pub mod Status
pub mod Apply
pub mod Reserve
pub mod Sends
pub mod Queue
pub mod Reconcile
