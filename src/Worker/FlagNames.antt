-- ===== src/Worker/FlagNames.antt =====
-- What the registration of the flags does.
use unsealer.Prelude.{◌≡◌, refl, true}
use unsealer.Text.{text, text_eq}
use unsealer.Flags.{register, all_distinct}
use unsealer.Worker.Options.{WorkerOptions}
use unsealer.Worker.Flags.{
  worker_flags, unseal_flags, auth_flags, policy_flags, google_flags, aws_flags, azure_auth_flags,
  azure_flags, kubernetes_flags,
}

-- No two flags of the command have the same name, at which pflag would panic, and their
-- registration leaves the options as they are but for the secret prefix of Azure, which becomes the
-- base URL of its key vault.
pub register-worker_flags :
    (o : WorkerOptions)
    → (all_distinct (worker_flags o) ≡ true)
      × (register (worker_flags o) o ≡ record o {
        azure_options = record o.azure_options { secret_prefix = o.azure_options.vault_base_url };
      })
unfolding worker_flags unseal_flags auth_flags policy_flags google_flags aws_flags azure_auth_flags
    azure_flags kubernetes_flags text text_eq
register-worker_flags o = (refl, refl)
