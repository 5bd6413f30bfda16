-- ===== src/Kv/Azure/Defs.antt =====
-- pkg/kv/azure/azure_key_vault.go, over the calls that it makes of github.com/Azure/azure-sdk-for-go.
use unsealer.Prelude.{ℕ, Option, ◌++◌}
use unsealer.Text.{Text, text}
use unsealer.Effect.{not_found_error, wrapped, Result, ok, err, Call, pure, wrapping, ◌>>=◌, ◌>>◌}
use unsealer.Base64.{encode}
use unsealer.Base64.Calls.{decode_string}
use unsealer.Kv.Defs.{Service, dummy_key, dummy_value}
use unsealer.Kv.Azure.Options.{AzureOptions}
use unsealer.Kv.Azure.Oauth.{AzureSdk, auth_grant_type, get_key_vault_token}
use unsealer.Kv.Azure.Versions.{Versions, no_version, to_string, scan_pages}

pub record SecretSetParameters : Type 0 where
  pub value : Text
  pub content_type : Text

-- Each call takes the base URL of the vault and the name of the secret first.
pub record KeyVaultClient (K : Type 0) : Type 0 where
  pub set_secret : Text → Text → SecretSetParameters → Call K Unit
  pub get_secret : Text → Text → Text → Call K (Option Text)
  pub get_secret_versions : Text → Text → ℕ → Call K Versions
  pub delete_secret : Text → Text → Call K Unit

pub record AzureStore (K : Type 0) : Type 0 where
  pub key_client : KeyVaultClient K
  pub vault_base_url : Text
  pub secret_prefix : Text

-- `azurekv.New` with the token as its authorizer, and `AddToUserAgent`.
pub record KeyVaultSdk (K : Type 0) : Type 0 where
  pub oauth : AzureSdk
  pub new_client : ℕ → KeyVaultClient K
  pub add_to_user_agent : Result Unit

unfoldable pub new_kv_service : {K : Type 0} → KeyVaultSdk K → AzureOptions → Result (AzureStore K)
unfolding get_key_vault_token
new_kv_service sdk opts = elim (get_key_vault_token sdk.oauth opts.auth_config auth_grant_type) [
  | err e ↦ err (wrapped (text "failed to get  OAuth token for key vault resources") e)
  | ok auth ↦ elim sdk.add_to_user_agent [
    | err e ↦ err (wrapped (text "failed to add to user agent") e)
    | ok added ↦ ok (record {
      key_client = sdk.new_client auth;
      vault_base_url = opts.vault_base_url;
      secret_prefix = opts.secret_prefix;
    })
  ]
]

-- What `Get` makes of any error: a `*kv.NotFoundError`.
abbrev pub as_not_found : {A : Type 0} → Text → Result A → Result A
as_not_found message (ok a) = ok a
as_not_found message (err e) = err (not_found_error message)

module _ {K : Type 0} (k : AzureStore K) where
  unfoldable pub get_key_name : Text → Text
  get_key_name key = k.secret_prefix ++ key

  unfoldable pub set_secret : Text → Text → Call K Unit
  set_secret secret_name value = wrapping (text "unable to set secrets in key vault") (
      k.key_client.set_secret k.vault_base_url secret_name
        (record { value = value; content_type = text "password" }))

  unfoldable pub get_latest_version_of_secret : Text → Call K Text
  unfolding scan_pages
  get_latest_version_of_secret secret_name = do
    resp ←
        wrapping (text "unable to get secret versions")
          (k.key_client.get_secret_versions k.vault_base_url secret_name 20)
    latest ← λ w. (scan_pages no_version resp, w)
    pure latest.version

  unfoldable pub get_secret : Text → Call K (Option Text)
  unfolding get_latest_version_of_secret
  get_secret secret_name = do
    version ←
        wrapping (text "unable to get latest version of secret")
          (get_latest_version_of_secret secret_name)
    wrapping
        (text "unable to get secret("
          ++ (secret_name ++ (text ") of version(" ++ (version ++ text ")"))))
        (k.key_client.get_secret k.vault_base_url secret_name version)

  unfoldable pub set : Text → Text → Call K Unit
  unfolding get_key_name set_secret
  set key value = set_secret (get_key_name key) (encode value)

  unfoldable pub get : Text → Call K Text
  unfolding get_key_name get_secret
  get key = do
    data_read ← λ w.
        let (r, w') = get_secret (get_key_name key) w in
        (as_not_found (text "unable to get secret(" ++ (key ++ text ") from key vault")) r, w')
    λ w.
        let (r, w') = decode_string (to_string data_read) w in
        (as_not_found (text "failed to decode base64 string") r, w')

  -- The secret that is deleted is named without the prefix.
  unfoldable pub check_write_access : Call K Unit
  check_write_access = do
    wrapping (text "failed to write test file") (set dummy_key dummy_value)
    wrapping (text "failed to get test file") (get dummy_key)
    wrapping (text "failed to delete test file")
        (k.key_client.delete_secret k.vault_base_url dummy_key)

  unfoldable pub service : Service K
  unfolding get set check_write_access
  service = record {
    set = set;
    get = get;
    check_write_access = check_write_access;
    test = λ key. pure tt;
  }
