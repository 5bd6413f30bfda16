-- ===== src/Vault/Policy.antt =====
-- pkg/vault/policy: the policy and the role of the policy controller.
pub mod Options
pub mod Defs
unfoldable pub use Defs.{policy_admin, ensure_policy_and_policy_binding, role_payload, role_request}
