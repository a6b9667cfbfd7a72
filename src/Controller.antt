-- ===== src/Controller.antt =====
-- internal/controller: one pass of the reconciler over the objects of a cluster.
pub mod Cluster
pub mod Exec
pub mod Conditions
pub mod Objects
pub mod Statuses
pub mod Users
pub mod Passes
pub mod Within
pub mod Foreign
pub mod Refused
pub mod Settled
pub mod Desired
pub mod Writes
pub mod Matching
pub mod Converged
pub mod Rendered
pub mod Held
pub mod Ordered
pub mod Recorded
pub mod Readiness
pub mod Failing
pub mod Reported
pub mod Steady
pub mod Watches
pub mod Consent
pub mod Consented
