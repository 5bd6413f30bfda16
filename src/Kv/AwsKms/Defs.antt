-- ===== src/Kv/AwsKms/Defs.antt =====
-- pkg/kv/aws_kms/aws_kms.go.
use unsealer.Prelude.{List, [], ◌∷◌, ◌++◌, if◌then◌else◌}
use unsealer.Text.{Text, text, text_eq}
use unsealer.Effect.{Error, plain, Result, ok, err, Call, pure, raise, wrapping, ◌>>=◌, ◌>>◌}
use unsealer.Kv.Defs.{Service}
use unsealer.Kv.Aws.{KmsClient, AwsSdk, configured_region}

pub record AwsKms (K : Type 0) : Type 0 where
  pub store : Service K
  pub kms_service : KmsClient K
  pub kms_id : Text

abbrev pub encryption_context : List (Text × Text)
encryption_context = (text "Tool", text "vault-unsealer") ∷ []

-- What `Test` encrypts and decrypts.
abbrev pub input_string : Text
input_string = text "test"

abbrev pub mismatch_error : Text → Error
mismatch_error plain_text = plain (
    text "encryped and decryped text doesn't match: exp: '"
    ++ (input_string ++ (text "', act: '" ++ (plain_text ++ text "'"))))

module _ {K : Type 0} (a : AwsKms K) where
  unfoldable pub decrypt : Text → Call K Text
  decrypt cipher_text =
      a.kms_service.decrypt
        (record { ciphertext_blob = cipher_text; encryption_context = encryption_context })

  unfoldable pub get : Text → Call K Text
  get key = do cipher_text ← a.store.get key; decrypt cipher_text

  unfoldable pub encrypt : Text → Call K Text
  encrypt plain_text = a.kms_service.encrypt (record {
    key_id = a.kms_id;
    plaintext = plain_text;
    encryption_context = encryption_context;
  })

  unfoldable pub set : Text → Text → Call K Unit
  set key value = do cipher_text ← encrypt value; a.store.set key cipher_text

  unfoldable pub check_write_access : Call K Unit
  check_write_access = a.store.check_write_access

  unfoldable pub test : Text → Call K Unit
  test key = do
    wrapping (text "test of backend store failed: ") (a.store.test key)
    cipher_text ← encrypt input_string
    plain_text ← decrypt cipher_text
    if text_eq plain_text input_string then pure tt else raise (mismatch_error plain_text)

  unfoldable pub service : Service K
  unfolding get set check_write_access test
  service = record { set = set; get = get; check_write_access = check_write_access; test = test }

unfoldable pub new_with_session : {K : Type 0} → AwsSdk K → Service K → Text → Result (AwsKms K)
new_with_session sdk store kms_id =
    if text_eq kms_id []
    then err (plain (text "invalid kmsID specified: '" ++ (kms_id ++ text "'")))
    else ok (record {
      store = store;
      kms_service = sdk.new_kms (configured_region sdk.metadata);
      kms_id = kms_id;
    })

unfoldable pub new : {K : Type 0} → AwsSdk K → Service K → Text → Result (AwsKms K)
unfolding new_with_session
new sdk store kms_id = elim sdk.new_session [
  | ok session ↦ new_with_session sdk store kms_id
  | err e ↦ err e
]
