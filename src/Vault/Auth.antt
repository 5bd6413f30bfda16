-- ===== src/Vault/Auth.antt =====
-- pkg/vault/auth: the Kubernetes auth method of the Vault server.
pub mod Options
pub mod Defs
pub mod Mounts
pub mod Idempotence
pub use Defs.{KubernetesAuthenticator}
unfoldable pub use Defs.{
  ensure_auth, configure_auth, send, config_request, config_payload, new_request,
}
