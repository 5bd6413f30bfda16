-- ===== src/Kv/AwsSsm.antt =====
-- pkg/kv/aws_ssm: the AWS Systems Manager parameter store as a key store.
pub mod Defs
pub mod Contract
pub use Defs.{AwsSsm}
unfoldable pub use Defs.{name, new_with_session, new, service}
