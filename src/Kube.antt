-- ===== src/Kube.antt =====
-- The objects of Kubernetes that the operator reads and writes, with the fields that it uses, and the
-- errors of the API. The API server itself is a parameter (`Server`).
mod Objects
unfoldable pub use Objects.*
