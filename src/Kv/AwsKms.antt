-- ===== src/Kv/AwsKms.antt =====
-- pkg/kv/aws_kms: encryption by the AWS Key Management Service over another key store.
pub mod Options
pub mod Defs
pub mod Contract
pub use Defs.{AwsKms}
unfoldable pub use Defs.{new_with_session, new, service}
