-- ===== src/Vault/Auth/Options.antt =====
-- pkg/vault/auth/options.go.
use unsealer.Prelude.{List, [], ◌++◌}
use unsealer.Text.{Text, text}
use unsealer.Effect.{Error}
use unsealer.Validation.{complain, is_blank}

pub record K8sAuthenticatorOptions : Type 0 where
  pub host : Text
  pub ca : Text
  pub token : Text

-- `NewK8sAuthOptions`, over the environment's variables.
unfoldable pub new_k8s_auth_options : (Text → Text) → K8sAuthenticatorOptions
new_k8s_auth_options getenv = record {
  host = [];
  ca = [];
  token = getenv (text "K8S_TOKEN_REVIEWER_JWT");
}

unfoldable pub validate_auth : K8sAuthenticatorOptions → List Error
validate_auth o =
    complain (is_blank o.host) (text "auth.k8s-host must be non empty")
    ++ complain (is_blank o.token) (text "env K8S_TOKEN_REVIEWER_JWT must be non empty")
