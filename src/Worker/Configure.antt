-- ===== src/Worker/Configure.antt =====
-- `configureVault` of pkg/worker/worker.go.
use unsealer.Prelude.{some}
use unsealer.Text.{Text, text}
use unsealer.Effect.{ok, Call, wrapping, ◌>>=◌, ◌>>◌}
use unsealer.Kv.{Service}
use unsealer.Vault.Client.{VaultClient}
use unsealer.Vault.World.{World, on_store, on_vault}
use unsealer.Vault.Auth.Defs.{new_kubernetes_authenticator}
use unsealer.Vault.Auth.{KubernetesAuthenticator, ensure_auth, configure_auth}
use unsealer.Vault.Policy.{ensure_policy_and_policy_binding}
use unsealer.Worker.Options.{WorkerOptions}

module _ {K V : Type 0} (o : WorkerOptions) (vc : VaultClient V) (key_store : Service K) where
  abbrev pub authenticator : KubernetesAuthenticator V
  authenticator = new_kubernetes_authenticator (some vc) (some o.authenticator_options)

  -- `vc.SetToken`, which has no error.
  abbrev pub use_token : Text → Call V Unit
  use_token token v = (ok tt, vc.set_token token v)

  unfoldable pub configure_vault : Text → Call (World K V) Unit
  unfolding ensure_auth configure_auth ensure_policy_and_policy_binding
  configure_vault root_token_id = do
    root_token ←
        wrapping (text "failed to get the root token") (on_store (key_store.get root_token_id))
    on_vault (use_token root_token)
    wrapping (text "failed to enable kubernetes auth") (on_vault (ensure_auth authenticator))
    wrapping (text "failed to configure kubernetes auth") (on_vault (configure_auth authenticator))
    wrapping (text "failed to write policy and policy binding for policy controller")
        (on_vault (ensure_policy_and_policy_binding (some vc) (some o.policy_manager_options)))
