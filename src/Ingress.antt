-- ===== src/Ingress.antt =====
-- pkg/sloop/ingress: what the watcher of the cluster sends, and how it stops.
pub mod Watcher
pub mod Update
