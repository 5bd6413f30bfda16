-- ===== src/Vault/Auth/Defs.antt =====
-- pkg/vault/auth/auth.go.
use unsealer.Prelude.{Bool, false, ◌&&◌, ◌||◌, Option, none, some, List, [], ◌∷◌, if◌then◌else◌}
use unsealer.Text.{Text, text, text_eq}
use unsealer.Effect.{plain, ok, err, Call, pure, raise, ◌>>=◌}
use unsealer.Vault.Client.{VaultClient, AuthMount, Request, PayloadValue, string}
use unsealer.Vault.Auth.Options.{K8sAuthenticatorOptions}

abbrev pub kubernetes_auth_type : Text
kubernetes_auth_type = text "kubernetes"

abbrev pub kubernetes_auth_path : Text
kubernetes_auth_path = text "kubernetes/"

-- Both pointers may be nil.
pub record KubernetesAuthenticator (V : Type 0) : Type 0 where
  pub vc : Option (VaultClient V)
  pub config : Option K8sAuthenticatorOptions

abbrev pub new_kubernetes_authenticator :
    {V : Type 0}
    → Option (VaultClient V)
    → Option K8sAuthenticatorOptions
    → KubernetesAuthenticator V
new_kubernetes_authenticator vc cf = record { vc = vc; config = cf }

abbrev pub is_kubernetes : AuthMount → Bool
is_kubernetes m = text_eq m.kind kubernetes_auth_type && text_eq m.path kubernetes_auth_path

-- The loop over the map that `ListAuth` returns, in whatever order.
unfoldable pub kubernetes_enabled : List AuthMount → Bool
kubernetes_enabled [] = false
kubernetes_enabled (m ∷ mounts) = is_kubernetes m || kubernetes_enabled mounts

unfoldable pub ensure_with : {V : Type 0} → VaultClient V → Call V Unit
ensure_with vc = do
  mounts ← vc.list_auth
  if kubernetes_enabled mounts
      then pure tt
      else vc.enable_auth kubernetes_auth_path kubernetes_auth_type

unfoldable pub ensure_auth : {V : Type 0} → KubernetesAuthenticator V → Call V Unit
unfolding ensure_with
ensure_auth k = elim k.vc [
  | none ↦ raise (plain (text "vault client is nil"))
  | some vc ↦ ensure_with vc
]

-- `NewRequest` of the client.
unfoldable pub new_request : Text → Text → Request
new_request method path = record { method = method; path = path; body = [] }

unfoldable pub config_payload : K8sAuthenticatorOptions → List (Text × PayloadValue)
config_payload c =
    (text "kubernetes_host", string c.host)
    ∷ (text "kubernetes_ca_cert", string c.ca)
    ∷ (text "token_reviewer_jwt", string c.token)
    ∷ []

-- `SetJSONBody`, then `RawRequest`.
unfoldable pub send :
    {V : Type 0} → VaultClient V → Request → List (Text × PayloadValue) → Call V Unit
send vc r payload v = elim (vc.set_json_body r payload) [
  | ok request ↦ vc.raw_request request v
  | err e ↦ raise e v
]

unfoldable pub config_request : Request
unfolding new_request
config_request = new_request (text "POST") (text "/v1/auth/kubernetes/config")

unfoldable pub configure_auth : {V : Type 0} → KubernetesAuthenticator V → Call V Unit
unfolding send
configure_auth k = elim k.vc [
  | none ↦ raise (plain (text "vault client is nil"))
  | some vc ↦ elim k.config [
    | none ↦ raise (plain (text "kubernetes config is nil"))
    | some c ↦ send vc config_request (config_payload c)
  ]
]
