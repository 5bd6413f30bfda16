-- ===== src/Kv/AwsKms/Options.antt =====
-- pkg/kv/aws_kms/options.go.
use unsealer.Prelude.{Bool, not, ◌&&◌, List, ◌++◌}
use unsealer.Text.{Text, text}
use unsealer.Effect.{Error}
use unsealer.Validation.{complain, is_blank}

pub record AwsOptions : Type 0 where
  pub kms_key_id : Text
  pub use_secure_string : Bool
  pub ssm_key_prefix : Text

unfoldable pub validate_aws : AwsOptions → List Error
validate_aws o =
    complain (is_blank o.kms_key_id && not o.use_secure_string)
      (text "--aws.kms-key-id or --aws.use-secure-string must be defined")
    ++ complain (not (is_blank o.kms_key_id) && o.use_secure_string) (
        text
          "--aws.kms-key-id and --aws.use-secure-string both are defined, but only one of them is needed")
