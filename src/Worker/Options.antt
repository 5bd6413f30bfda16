-- ===== src/Worker/Options.antt =====
-- pkg/worker/options.go.
use unsealer.Prelude.{Bool, not, ◌&&◌, List, [], ◌++◌, if◌then◌else◌}
use unsealer.Prelude.Int.{ℤ}
use unsealer.Text.{Text, text, text_eq}
use unsealer.Effect.{Error}
use unsealer.Validation.{complain}
use unsealer.Kv.AwsKms.Options.{AwsOptions, validate_aws}
use unsealer.Kv.CloudKms.Options.{GoogleOptions, validate_google}
use unsealer.Kv.Azure.Options.{AzureOptions, validate_azure}
use unsealer.Kv.Kubernetes.Options.{KubernetesOptions, validate_kubernetes}
use unsealer.Vault.Auth.Options.{K8sAuthenticatorOptions, validate_auth}
use unsealer.Vault.Policy.Options.{PolicyManagerOptions, validate_policy}
use unsealer.Vault.Unseal.Defs.{UnsealOptions}
use unsealer.Vault.Unseal.Options.{validate_unseal}

abbrev pub mode_google_cloud_kms_gcs : Text
mode_google_cloud_kms_gcs = text "google-cloud-kms-gcs"

abbrev pub mode_aws_kms_ssm : Text
mode_aws_kms_ssm = text "aws-kms-ssm"

abbrev pub mode_azure_key_vault : Text
mode_azure_key_vault = text "azure-key-vault"

abbrev pub mode_kubernetes_secret : Text
mode_kubernetes_secret = text "kubernetes-secret"

pub record WorkerOptions : Type 0 where
  pub address : Text
  pub ca_cert : Text
  pub insecure_skip_tls_verify : Bool
  pub retry_period : ℤ
  pub mode : Text
  pub authenticator_options : K8sAuthenticatorOptions
  pub unsealer_options : UnsealOptions
  pub policy_manager_options : PolicyManagerOptions
  pub google_options : GoogleOptions
  pub aws_options : AwsOptions
  pub azure_options : AzureOptions
  pub kubernetes_options : KubernetesOptions

abbrev pub invalid_mode : WorkerOptions → Bool
invalid_mode o =
    not (text_eq o.mode mode_google_cloud_kms_gcs)
    && (not (text_eq o.mode mode_aws_kms_ssm)
        && (not (text_eq o.mode mode_kubernetes_secret)
            && not (text_eq o.mode mode_azure_key_vault)))

-- `if o.Mode == mode { errs = append(errs, more...) }`
abbrev pub in_mode : WorkerOptions → Text → List Error → List Error
in_mode o mode more = if text_eq o.mode mode then more else []

unfoldable pub validate_worker : WorkerOptions → List Error
validate_worker o =
    complain (invalid_mode o) (text "invalid mode")
    ++ (validate_unseal o.unsealer_options
        ++ (validate_auth o.authenticator_options
            ++ (validate_policy o.policy_manager_options
                ++ (in_mode o mode_google_cloud_kms_gcs (validate_google o.google_options)
                    ++ (in_mode o mode_aws_kms_ssm (validate_aws o.aws_options)
                        ++ (in_mode o mode_azure_key_vault (validate_azure o.azure_options)
                            ++ in_mode o mode_kubernetes_secret
                                (validate_kubernetes o.kubernetes_options)))))))
