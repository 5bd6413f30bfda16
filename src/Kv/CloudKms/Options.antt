-- ===== src/Kv/CloudKms/Options.antt =====
-- pkg/kv/cloudkms/options.go.
use unsealer.Prelude.{List, ◌++◌}
use unsealer.Text.{Text, text}
use unsealer.Effect.{Error}
use unsealer.Validation.{complain, is_blank}

pub record GoogleOptions : Type 0 where
  pub kms_crypto_key : Text
  pub kms_key_ring : Text
  pub kms_location : Text
  pub kms_project : Text
  pub storage_bucket : Text
  pub storage_prefix : Text

unfoldable pub validate_google : GoogleOptions → List Error
validate_google o =
    complain (is_blank o.kms_crypto_key) (text "google kms crypto key must be non-empty")
    ++ (complain (is_blank o.kms_key_ring) (text "google kms key ring must be non-empty")
        ++ (complain (is_blank o.kms_location) (text "google kms location must be non-empty")
            ++ (complain (is_blank o.kms_project) (text "google kms project must be non-empty")
                ++ complain (is_blank o.storage_bucket)
                    (text "google storage bucket name must be non-empty"))))
