-- ===== src/Vault/Policy/Options.antt =====
-- pkg/vault/policy/options.go.
use unsealer.Prelude.{List, [], ◌++◌}
use unsealer.Text.{Text, text}
use unsealer.Effect.{Error}
use unsealer.Validation.{complain, is_blank}

pub record PolicyManagerOptions : Type 0 where
  pub name : Text
  pub service_account_name : Text
  pub service_account_namespace : Text

-- `NewPolicyOptions`.
abbrev pub new_policy_options : PolicyManagerOptions
new_policy_options = record { name = []; service_account_name = []; service_account_namespace = [] }

unfoldable pub validate_policy : PolicyManagerOptions → List Error
validate_policy o =
    complain (is_blank o.name) (text "policy-manager.name must be non empty")
    ++ (complain (is_blank o.service_account_name)
          (text "policy-manager.service-account-name must be non empty")
        ++ complain (is_blank o.service_account_namespace)
            (text "policy-manager.service-account-namespace must be non empty"))
