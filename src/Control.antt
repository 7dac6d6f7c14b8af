-- ===== src/Control.antt =====
-- The controls through which the controller creates and deletes objects: pkg/controller/control.
mod Refs
mod Pods
mod Services
mod ConfigMaps
mod Gang
unfoldable pub use Refs.*
unfoldable pub use Pods.*
unfoldable pub use Services.*
unfoldable pub use ConfigMaps.*
unfoldable pub use Gang.*
