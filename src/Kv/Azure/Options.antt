-- ===== src/Kv/Azure/Options.antt =====
-- pkg/kv/azure/options.go and pkg/kv/azure/oauth_options.go.
use unsealer.Prelude.{Bool, false, not, ◌&&◌, ◌||◌, List, [], ◌++◌}
use unsealer.Text.{Text, text}
use unsealer.Effect.{Error}
use unsealer.Validation.{complain, is_blank}

pub record AzureAuthConfig : Type 0 where
  pub cloud : Text
  pub tenant_id : Text
  pub aad_client_id : Text
  pub aad_client_secret : Text
  pub aad_client_cert_path : Text
  pub aad_client_cert_password : Text
  pub use_managed_identity_extension : Bool

-- `NewAzureAuthConfig`, over the environment's variables.
unfoldable pub new_azure_auth_config : (Text → Text) → AzureAuthConfig
new_azure_auth_config getenv = record {
  cloud = text "AZUREPUBLICCLOUD";
  tenant_id = [];
  aad_client_id = getenv (text "AZURE_CLIENT_ID");
  aad_client_secret = getenv (text "AZURE_CLIENT_SECRET");
  aad_client_cert_path = [];
  aad_client_cert_password = getenv (text "AZURE_CLIENT_CERT_PASSWORD");
  use_managed_identity_extension = false;
}

unfoldable pub validate_azure_auth : AzureAuthConfig → List Error
validate_azure_auth o =
    complain (is_blank o.cloud) (text "cloud environment identifier must be non-empty")
    ++ (complain (is_blank o.tenant_id) (text "azure tenant id must be non-empty")
        ++ complain
            ((is_blank o.aad_client_id || is_blank o.aad_client_secret)
              && ((is_blank o.aad_client_cert_path || is_blank o.aad_client_cert_password)
                  && not o.use_managed_identity_extension))
            (text "at least one of the following auth mechanism have to use"))

pub record AzureOptions : Type 0 where
  pub vault_base_url : Text
  pub auth_config : AzureAuthConfig
  pub secret_prefix : Text

unfoldable pub validate_azure : AzureOptions → List Error
unfolding validate_azure_auth
validate_azure o =
    complain (is_blank o.vault_base_url) (text "azure key vault url must be non-empty")
    ++ validate_azure_auth o.auth_config
