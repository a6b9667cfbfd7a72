-- ===== src/Builder.antt =====
-- internal/builder: the Kubernetes objects of a broker.
pub mod Objects
pub mod Pods
pub mod Hash
pub mod StatefulSets
pub mod Services
pub mod Updates
pub mod Applied
pub mod Mounts
