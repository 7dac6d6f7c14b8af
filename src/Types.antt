-- ===== src/Types.antt =====
-- The objects of apis/kubecluster.org/v1alpha1 and the parts of Kubernetes' core/v1 that the code reads.
mod Core
mod Status
mod Cluster
pub use Core.*
unfoldable pub use Status.*
pub use Cluster.*
