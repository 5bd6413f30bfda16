-- ===== src/Vault/Policy/Defs.antt =====
-- pkg/vault/policy/policy.go.
use unsealer.Prelude.{Option, none, some, List, [], ◌∷◌, ◌++◌}
use unsealer.Text.{Text, text}
use unsealer.Effect.{plain, Call, raise, ◌>>◌}
use unsealer.Vault.Client.{VaultClient, Request, PayloadValue, string, strings}
use unsealer.Vault.Auth.{send, new_request}
use unsealer.Vault.Policy.Options.{PolicyManagerOptions}

concat_lines : List Text → Text
concat_lines [] = []
concat_lines (l ∷ lines) = l ++ concat_lines lines

-- The constant `policyAdmin`, line by line.
unfoldable pub policy_admin : Text
unfolding concat_lines
policy_admin = concat_lines (
    text "\n"
    ∷ text "path \"sys/mounts\" {\n"
    ∷ text "  capabilities = [\"read\", \"list\"]\n"
    ∷ text "}\n"
    ∷ text "\n"
    ∷ text "path \"sys/mounts/*\" {\n"
    ∷ text "  capabilities = [\"create\", \"read\", \"update\", \"delete\"]\n"
    ∷ text "}\n"
    ∷ text "\n"
    ∷ text "path \"sys/leases/revoke/*\" {\n"
    ∷ text "    capabilities = [\"update\"]\n"
    ∷ text "}\n"
    ∷ text "\n"
    ∷ text "path \"sys/policy/*\" {\n"
    ∷ text "\tcapabilities = [\"create\", \"update\", \"read\", \"delete\", \"list\"]\n"
    ∷ text "}\n"
    ∷ text "\n"
    ∷ text "path \"sys/policy\" {\n"
    ∷ text "\tcapabilities = [\"read\", \"list\"]\n"
    ∷ text "}\n"
    ∷ text "\n"
    ∷ text "path \"sys/policies\" {\n"
    ∷ text "\tcapabilities = [\"read\", \"list\"]\n"
    ∷ text "}\n"
    ∷ text "\n"
    ∷ text "path \"sys/policies/*\" {\n"
    ∷ text "\tcapabilities = [\"create\", \"update\", \"read\", \"delete\", \"list\"]\n"
    ∷ text "}\n"
    ∷ text "\n"
    ∷ text "path \"auth/kubernetes/role\" {\n"
    ∷ text "\tcapabilities = [\"read\", \"list\"]\n"
    ∷ text "}\n"
    ∷ text "\n"
    ∷ text "path \"auth/kubernetes/role/*\" {\n"
    ∷ text "\tcapabilities = [\"create\", \"update\", \"read\", \"delete\", \"list\"]\n"
    ∷ text "}\n"
    ∷ [])

unfoldable pub role_request : PolicyManagerOptions → Request
unfolding new_request
role_request c = new_request (text "POST") (text "/v1/auth/kubernetes/role/" ++ c.name)

unfoldable pub role_payload : PolicyManagerOptions → List (Text × PayloadValue)
role_payload c =
    (text "bound_service_account_names", string c.service_account_name)
    ∷ (text "bound_service_account_namespaces", string c.service_account_namespace)
    ∷ (text "policies", strings (c.name ∷ text "default" ∷ []))
    ∷ (text "ttl", string (text "24h"))
    ∷ (text "max_ttl", string (text "24h"))
    ∷ (text "period", string (text "24h"))
    ∷ []

-- Both pointers may be nil.
unfoldable pub ensure_policy_and_policy_binding :
    {V : Type 0} → Option (VaultClient V) → Option PolicyManagerOptions → Call V Unit
ensure_policy_and_policy_binding none config = raise (plain (text "vault client is nil"))
ensure_policy_and_policy_binding (some vc) none = raise (plain (text "config is nil"))
ensure_policy_and_policy_binding (some vc) (some c) = do
  vc.put_policy c.name policy_admin
  send vc (role_request c) (role_payload c)
