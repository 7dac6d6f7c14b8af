-- ===== src/Reconcile.antt =====
-- The reconciliation of a cluster: pkg/controller/ctrlcommon and pkg/core.
pub mod Naming
pub mod Status
pub mod Select
pub mod PodCreation
pub mod Pods
pub mod Services
pub mod ConfigMaps
pub mod Accounting
pub mod Rules
pub mod Deletions
pub mod Steady
pub mod Finished
pub mod Policies
pub mod Ownerless
pub mod Entry
pub mod Limits
pub mod Gang
pub mod CleanUp
pub mod Equality
pub mod Objects
pub mod Cluster
