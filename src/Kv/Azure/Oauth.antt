-- ===== src/Kv/Azure/Oauth.antt =====
-- pkg/kv/azure/oauth.go, over the calls that it makes of github.com/Azure/go-autorest. A token is a
-- handle.
use unsealer.Prelude.{ℕ, Bool, not, ◌&&◌, Option, none, some, [], ◌∷◌, ◌++◌, ◌==◌, if◌then◌else◌}
use unsealer.Text.{Text, text}
use unsealer.Effect.{Error, plain, wrapped, Result, ok, err}
use unsealer.Validation.{is_blank}
use unsealer.Kv.Azure.Options.{AzureAuthConfig}

pub record Environment : Type 0 where
  pub key_vault_endpoint : Text
  pub active_directory_endpoint : Text
  pub service_management_endpoint : Text

-- `OAuthGrantType`.
pub data OAuthGrantType : Type 0 where
  service_principal device_flow : OAuthGrantType

abbrev pub auth_grant_type : OAuthGrantType
auth_grant_type = service_principal

-- What PKCS#12 data hold.
pub record Certificate : Type 0 where
  pub certificate : Text
  pub private_key : Text
  pub is_rsa : Bool

pub record AzureSdk : Type 0 where
  pub public_cloud : Environment
  pub environment_from_name : Text → Result Environment
  pub new_oauth_config : Text → Text → Result Text
  pub get_msi_vm_endpoint : Result Text
  pub token_from_msi : Text → Text → Result ℕ
  pub token_from_secret : Text → Text → Text → Text → Result ℕ
  pub token_from_certificate : Text → Text → Certificate → Text → Result ℕ
  pub read_file : Text → Result Text
  pub decode_certificate : Text → Text → Result Certificate

unfoldable pub parse_azure_environment : AzureSdk → Text → Result Environment
parse_azure_environment sdk cloud_name =
    if is_blank cloud_name then ok sdk.public_cloud else sdk.environment_from_name cloud_name

-- A private key that is not RSA is refused.
unfoldable pub decode_pkcs12 : AzureSdk → Text → Text → Result Certificate
decode_pkcs12 sdk pkcs password = elim (sdk.decode_certificate pkcs password) [
  | err e ↦ err (wrapped (text "decoding the PKCS#12 client certificate: ") e)
  | ok c ↦
      if c.is_rsa
      then ok c
      else err (plain (text "PKCS#12 certificate must contain a RSA private key"))
]

-- The three ways to a token, in the order in which they are tried.
pub data Credential : Type 0 where
  managed_identity client_secret client_certificate : Credential

unfoldable pub credential : AzureAuthConfig → Option Credential
credential c =
    if c.use_managed_identity_extension
    then some managed_identity
    else if not (is_blank c.aad_client_secret)
    then some client_secret
    else if not (is_blank c.aad_client_cert_path) && not (is_blank c.aad_client_cert_password)
    then some client_certificate
    else none

unfoldable pub certificate_token : AzureSdk → AzureAuthConfig → Environment → Text → Result ℕ
unfolding decode_pkcs12
certificate_token sdk c env oauth_config = elim (sdk.read_file c.aad_client_cert_path) [
  | err e ↦ err (
      wrapped
        (text "reading the client certificate from file " ++ (c.aad_client_cert_path ++ text ": "))
        e)
  | ok cert_data ↦ elim (decode_pkcs12 sdk cert_data c.aad_client_cert_password) [
    | err e ↦ err (wrapped (text "decoding the client certificate: ") e)
    | ok cert ↦
        sdk.token_from_certificate oauth_config c.aad_client_id cert env.service_management_endpoint
  ]
]

abbrev pub no_credentials : AzureAuthConfig → Error
no_credentials c = plain (text "No credentials provided for AAD application " ++ c.aad_client_id)

unfoldable pub token_by :
    AzureSdk → AzureAuthConfig → Environment → Text → Text → Option Credential → Result ℕ
unfolding certificate_token
token_by sdk c env resource oauth_config (some managed_identity) = elim sdk.get_msi_vm_endpoint [
  | err e ↦ err (wrapped (text "Getting the managed service identity endpoint: ") e)
  | ok endpoint ↦ sdk.token_from_msi endpoint resource
]
token_by sdk c env resource oauth_config (some client_secret) =
    sdk.token_from_secret oauth_config c.aad_client_id c.aad_client_secret resource
token_by sdk c env resource oauth_config (some client_certificate) =
    certificate_token sdk c env oauth_config
token_by sdk c env resource oauth_config none = err (no_credentials c)

unfoldable pub get_service_principal_token :
    AzureSdk → AzureAuthConfig → Environment → Text → Result ℕ
unfolding token_by credential
get_service_principal_token sdk c env resource =
    elim (sdk.new_oauth_config env.active_directory_endpoint c.tenant_id) [
      | err e ↦ err (wrapped (text "creating the OAuth config: ") e)
      | ok oauth_config ↦ token_by sdk c env resource oauth_config (credential c)
    ]

-- `kvEndPoint` without a slash at its end; an empty one is indexed out of range.
unfoldable pub trim_slash : Text → Text
trim_slash [] = []
trim_slash (c ∷ []) = if c == b'/' then [] else c ∷ []
trim_slash (c ∷ d ∷ s) = c ∷ trim_slash (d ∷ s)

-- The panic at an empty endpoint is an error value here.
unfoldable pub get_key_vault_token : AzureSdk → AzureAuthConfig → OAuthGrantType → Result ℕ
unfolding parse_azure_environment get_service_principal_token trim_slash
get_key_vault_token sdk c grant_type = elim (parse_azure_environment sdk c.cloud) [
  | err e ↦ err e
  | ok env ↦
      if is_blank env.key_vault_endpoint
      then err (plain (text "panic: index out of range"))
      else get_service_principal_token sdk c env (trim_slash env.key_vault_endpoint)
]
