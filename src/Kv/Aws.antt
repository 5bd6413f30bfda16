-- ===== src/Kv/Aws.antt =====
-- What pkg/kv/aws_ssm and pkg/kv/aws_kms call of github.com/aws/aws-sdk-go, and pkg/kv/util/aws.go.
use unsealer.Prelude.{ℕ, Bool, not, Option, none, some, List, [], ◌==◌, if◌then◌else◌}
use unsealer.Text.{Text, text_eq}
use unsealer.Effect.{Result, ok, err, Call}

-- `ssm.PutParameterInput`.
pub record PutParameterInput : Type 0 where
  pub description : Text
  pub name : Text
  pub overwrite : Bool
  pub value : Text
  pub kind : Text

pub record SsmClient (K : Type 0) : Type 0 where
  -- The values of those of the named parameters that exist, decrypted on request.
  pub get_parameters : List Text → Bool → Call K (List Text)
  pub put_parameter : PutParameterInput → Call K Unit
  pub delete_parameter : Text → Call K Unit

pub record EncryptInput : Type 0 where
  pub key_id : Text
  pub plaintext : Text
  pub encryption_context : List (Text × Text)

pub record DecryptInput : Type 0 where
  pub ciphertext_blob : Text
  pub encryption_context : List (Text × Text)

pub record KmsClient (K : Type 0) : Type 0 where
  pub encrypt : EncryptInput → Call K Text
  pub decrypt : DecryptInput → Call K Text

-- The answer of the instance metadata service.
pub record Metadata : Type 0 where
  pub status_code : ℕ
  pub region : Text

-- The SDK's constructors take a region or fall back on their own configuration.
pub record AwsSdk (K : Type 0) : Type 0 where
  pub new_session : Result Unit
  pub metadata : Result Metadata
  pub new_ssm : Option Text → SsmClient K
  pub new_kms : Option Text → KmsClient K

-- `GetAWSRegion`.
unfoldable pub get_aws_region : Result Metadata → Text
get_aws_region (ok m) = if m.status_code == 200 then m.region else []
get_aws_region (err e) = []

-- The region that `NewWithSession` of both packages hands to the SDK.
unfoldable pub configured_region : Result Metadata → Option Text
unfolding get_aws_region text_eq
configured_region m = if not (text_eq (get_aws_region m) []) then some (get_aws_region m) else none
