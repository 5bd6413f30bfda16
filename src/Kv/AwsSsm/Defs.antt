-- ===== src/Kv/AwsSsm/Defs.antt =====
-- pkg/kv/aws_ssm/aws_ssm.go.
use unsealer.Prelude.{Bool, true, List, [], ◌∷◌, ◌++◌, if◌then◌else◌}
use unsealer.Text.{Text, text}
use unsealer.Effect.{not_found_error, Result, ok, err, Call, pure, raise, wrapping, ◌>>=◌, ◌>>◌}
use unsealer.Base64.{encode}
use unsealer.Base64.Calls.{decode_string}
use unsealer.Kv.Defs.{Service, dummy_key, dummy_value}
use unsealer.Kv.Aws.{SsmClient, PutParameterInput, AwsSdk, configured_region}

pub record AwsSsm (K : Type 0) : Type 0 where
  pub ssm_service : SsmClient K
  pub use_secure_string : Bool
  pub key_prefix : Text

module _ {K : Type 0} (a : AwsSsm K) where
  unfoldable pub name : Text → Text
  name key = a.key_prefix ++ key

  -- `out.Parameters[0].Value`, after the test of its length.
  unfoldable pub first_value : Text → List Text → Call K Text
  first_value key [] = raise (not_found_error (text "key '" ++ (key ++ text "' not found")))
  first_value key (value ∷ values) = decode_string value

  unfoldable pub get : Text → Call K Text
  unfolding name first_value
  get key = do
    values ← a.ssm_service.get_parameters (name key ∷ []) a.use_secure_string
    first_value key values

  unfoldable pub put_input : Text → Text → PutParameterInput
  unfolding name
  put_input key value = record {
    description = text "vault-unsealer";
    name = name key;
    overwrite = true;
    value = encode value;
    kind = if a.use_secure_string then text "SecureString" else text "String";
  }

  unfoldable pub set : Text → Text → Call K Unit
  unfolding put_input
  set key value = a.ssm_service.put_parameter (put_input key value)

  unfoldable pub check_write_access : Call K Unit
  check_write_access = do
    wrapping (text "failed to write test file: ") (set dummy_key dummy_value)
    wrapping (text "failed to get test file: ") (get dummy_key)
    wrapping (text "failed to delete test file: ") (a.ssm_service.delete_parameter (name dummy_key))

  unfoldable pub service : Service K
  unfolding get set check_write_access
  service = record {
    set = set;
    get = get;
    check_write_access = check_write_access;
    test = λ key. pure tt;
  }

unfoldable pub new_with_session : {K : Type 0} → AwsSdk K → Bool → Text → Result (AwsSsm K)
new_with_session sdk use_secure_string key_prefix = ok (record {
  ssm_service = sdk.new_ssm (configured_region sdk.metadata);
  use_secure_string = use_secure_string;
  key_prefix = key_prefix;
})

unfoldable pub new : {K : Type 0} → AwsSdk K → Bool → Text → Result (AwsSsm K)
unfolding new_with_session
new sdk use_secure_string key_prefix = elim sdk.new_session [
  | ok session ↦ new_with_session sdk use_secure_string key_prefix
  | err e ↦ err e
]
