-- ===== src/Worker/Defaults.antt =====
-- `NewWorkerOptions` of pkg/worker/options.go and the constructors of the options that it calls,
-- over the environment's variables.
use unsealer.Prelude.{false, []}
use unsealer.Prelude.Int.{ℤ, pos}
use unsealer.Text.{Text, text}
use unsealer.Kv.AwsKms.Options.{AwsOptions}
use unsealer.Kv.CloudKms.Options.{GoogleOptions}
use unsealer.Kv.Azure.Options.{AzureOptions, new_azure_auth_config}
use unsealer.Kv.Kubernetes.Options.{KubernetesOptions}
use unsealer.Vault.Auth.Options.{new_k8s_auth_options}
use unsealer.Vault.Policy.Options.{new_policy_options}
use unsealer.Vault.Unseal.Options.{new_unseal_options}
use unsealer.Worker.Options.{WorkerOptions}

abbrev pub vault_address_default : Text
vault_address_default = text "https://127.0.0.1:8200"

-- `10 * time.Second`, in nanoseconds.
abbrev pub retry_period : ℤ
retry_period = pos 10000000000

abbrev pub new_google_options : GoogleOptions
new_google_options = record {
  kms_crypto_key = [];
  kms_key_ring = [];
  kms_location = [];
  kms_project = [];
  storage_bucket = [];
  storage_prefix = [];
}

abbrev pub new_aws_options : AwsOptions
new_aws_options = record { kms_key_id = []; use_secure_string = false; ssm_key_prefix = [] }

unfoldable pub new_azure_options : (Text → Text) → AzureOptions
unfolding new_azure_auth_config
new_azure_options getenv = record {
  vault_base_url = [];
  auth_config = new_azure_auth_config getenv;
  secret_prefix = [];
}

abbrev pub new_kubernetes_options : KubernetesOptions
new_kubernetes_options = record { secret_name = [] }

unfoldable pub new_worker_options : (Text → Text) → WorkerOptions
unfolding new_azure_options new_k8s_auth_options
new_worker_options getenv = record {
  address = vault_address_default;
  ca_cert = [];
  insecure_skip_tls_verify = false;
  retry_period = retry_period;
  mode = [];
  authenticator_options = new_k8s_auth_options getenv;
  unsealer_options = new_unseal_options;
  policy_manager_options = new_policy_options;
  google_options = new_google_options;
  aws_options = new_aws_options;
  azure_options = new_azure_options getenv;
  kubernetes_options = new_kubernetes_options;
}
