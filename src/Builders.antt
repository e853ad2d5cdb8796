-- ===== src/Builders.antt =====
-- internal/resource: the builders of the child objects of a cluster.
pub mod Text
pub mod Meta
pub mod Config
pub mod Services
pub mod Secrets
pub mod Access
pub mod Catalogue
pub mod Pods
pub mod StatefulSet
pub mod Steady
