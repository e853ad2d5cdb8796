-- ===== src/Controller.antt =====
-- The package `controllers`: the steps of the reconciliation loop, and the loop.
pub mod Finalizer
pub mod Guards
pub mod Annotations
pub mod Cli
pub mod Equality
pub mod StatusSteps
pub mod Resources
pub mod Reconcile
pub mod Watches
pub mod Children
