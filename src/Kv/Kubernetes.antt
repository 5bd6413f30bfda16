-- ===== src/Kv/Kubernetes.antt =====
-- pkg/kv/kubernetes: one Kubernetes secret as a key store.
pub mod Options
pub mod Defs
pub mod Entries
pub mod Contract
pub mod Available
pub use Defs.{KubeClient, KubeSdk, KubernetesStore}
unfoldable pub use Defs.{new_kv_service, service}
