-- ===== src/Worker/Flags.antt =====
-- `AddFlags` of all options of the program: the flags in the order of their registration, with the
-- names and the defaults, less the usage texts. A default is read when its flag is registered; no
-- flag that is registered earlier changes the field that it reads.
use unsealer.Prelude.{List, [], ◌∷◌, ◌++◌}
use unsealer.Text.{text}
use unsealer.Flags.{Flag, string_var, bool_var, int_var, within}
use unsealer.Kv.AwsKms.Options.{AwsOptions}
use unsealer.Kv.CloudKms.Options.{GoogleOptions}
use unsealer.Kv.Azure.Options.{AzureOptions, AzureAuthConfig}
use unsealer.Kv.Kubernetes.Options.{KubernetesOptions}
use unsealer.Vault.Auth.Options.{K8sAuthenticatorOptions}
use unsealer.Vault.Policy.Options.{PolicyManagerOptions}
use unsealer.Vault.Unseal.Defs.{UnsealOptions}
use unsealer.Worker.Options.{WorkerOptions}

unfoldable pub unseal_flags : UnsealOptions → List (Flag UnsealOptions)
unseal_flags o =
    bool_var (λ b p. record p { store_root_token = b }) (text "store-root-token") o.store_root_token
    ∷ bool_var (λ b p. record p { overwrite_existing = b }) (text "overwrite-existing")
        o.overwrite_existing
    ∷ int_var (λ i p. record p { secret_shares = i }) (text "secret-shares") o.secret_shares
    ∷ int_var (λ i p. record p { secret_threshold = i }) (text "secret-threshold")
        o.secret_threshold
    ∷ []

unfoldable pub auth_flags : K8sAuthenticatorOptions → List (Flag K8sAuthenticatorOptions)
auth_flags o =
    string_var (λ s p. record p { host = s }) (text "auth.k8s-host") o.host
    ∷ string_var (λ s p. record p { ca = s }) (text "auth.k8s-ca-cert") o.ca
    ∷ string_var (λ s p. record p { token = s }) (text "auth.k8s-token-reviewer-jwt") o.token
    ∷ []

unfoldable pub policy_flags : PolicyManagerOptions → List (Flag PolicyManagerOptions)
policy_flags o =
    string_var (λ s p. record p { service_account_name = s })
      (text "policy-manager.service-account-name") o.service_account_name
    ∷ string_var (λ s p. record p { service_account_namespace = s })
        (text "policy-manager.service-account-namespace") o.service_account_namespace
    ∷ string_var (λ s p. record p { name = s }) (text "policy-manager.name") o.name
    ∷ []

unfoldable pub google_flags : GoogleOptions → List (Flag GoogleOptions)
google_flags o =
    string_var (λ s p. record p { kms_crypto_key = s }) (text "google.kms-crypto-key")
      o.kms_crypto_key
    ∷ string_var (λ s p. record p { kms_key_ring = s }) (text "google.kms-key-ring") o.kms_key_ring
    ∷ string_var (λ s p. record p { kms_location = s }) (text "google.kms-location") o.kms_location
    ∷ string_var (λ s p. record p { kms_project = s }) (text "google.kms-project") o.kms_project
    ∷ string_var (λ s p. record p { storage_bucket = s }) (text "google.storage-bucket")
        o.storage_bucket
    ∷ string_var (λ s p. record p { storage_prefix = s }) (text "google.storage-prefix")
        o.storage_prefix
    ∷ []

unfoldable pub aws_flags : AwsOptions → List (Flag AwsOptions)
aws_flags o =
    string_var (λ s p. record p { kms_key_id = s }) (text "aws.kms-key-id") o.kms_key_id
    ∷ string_var (λ s p. record p { ssm_key_prefix = s }) (text "aws.ssm-key-prefix")
        o.ssm_key_prefix
    ∷ bool_var (λ b p. record p { use_secure_string = b }) (text "aws.use-secure-string")
        o.use_secure_string
    ∷ []

unfoldable pub azure_auth_flags : AzureAuthConfig → List (Flag AzureAuthConfig)
azure_auth_flags o =
    string_var (λ s p. record p { cloud = s }) (text "azure.cloud") o.cloud
    ∷ string_var (λ s p. record p { aad_client_id = s }) (text "azure.client-id") o.aad_client_id
    ∷ string_var (λ s p. record p { aad_client_secret = s }) (text "azure.client-secret")
        o.aad_client_secret
    ∷ string_var (λ s p. record p { aad_client_cert_path = s }) (text "azure.client-cert-path")
        o.aad_client_cert_path
    ∷ string_var (λ s p. record p { aad_client_cert_password = s })
        (text "azure.client-cert-password") o.aad_client_cert_password
    ∷ bool_var (λ b p. record p { use_managed_identity_extension = b })
        (text "azure.use-managed-identity") o.use_managed_identity_extension
    ∷ string_var (λ s p. record p { tenant_id = s }) (text "azure.tenant-id") o.tenant_id
    ∷ []

-- The default of the secret prefix is the base URL.
unfoldable pub azure_flags : AzureOptions → List (Flag AzureOptions)
unfolding azure_auth_flags
azure_flags o =
    string_var (λ s p. record p { vault_base_url = s }) (text "azure.vault-base-url")
      o.vault_base_url
    ∷ string_var (λ s p. record p { secret_prefix = s }) (text "azure.secret-prefix")
        o.vault_base_url
    ∷ within (λ p. p.auth_config) (λ c p. record p { auth_config = c })
        (azure_auth_flags o.auth_config)

unfoldable pub kubernetes_flags : KubernetesOptions → List (Flag KubernetesOptions)
kubernetes_flags o =
    string_var (λ s p. record p { secret_name = s }) (text "k8s.secret-name") o.secret_name ∷ []

unfoldable pub worker_flags : WorkerOptions → List (Flag WorkerOptions)
unfolding unseal_flags auth_flags policy_flags google_flags aws_flags azure_flags kubernetes_flags
worker_flags o =
    (string_var (λ s p. record p { address = s }) (text "vault.address") o.address
      ∷ string_var (λ s p. record p { ca_cert = s }) (text "vault.ca-cert") o.ca_cert
      ∷ bool_var (λ b p. record p { insecure_skip_tls_verify = b })
          (text "vault.insecure-skip-tls-verify") o.insecure_skip_tls_verify
      ∷ string_var (λ s p. record p { mode = s }) (text "mode") o.mode
      ∷ int_var (λ i p. record p { retry_period = i }) (text "retry-period") o.retry_period
      ∷ [])
    ++ (within (λ p. p.unsealer_options) (λ c p. record p { unsealer_options = c })
          (unseal_flags o.unsealer_options)
        ++ (within (λ p. p.authenticator_options) (λ c p. record p { authenticator_options = c })
              (auth_flags o.authenticator_options)
            ++ (within (λ p. p.policy_manager_options)
                  (λ c p. record p { policy_manager_options = c })
                  (policy_flags o.policy_manager_options)
                ++ (within (λ p. p.google_options) (λ c p. record p { google_options = c })
                      (google_flags o.google_options)
                    ++ (within (λ p. p.aws_options) (λ c p. record p { aws_options = c })
                          (aws_flags o.aws_options)
                        ++ (within (λ p. p.azure_options) (λ c p. record p { azure_options = c })
                              (azure_flags o.azure_options)
                            ++ within (λ p. p.kubernetes_options)
                                (λ c p. record p { kubernetes_options = c })
                                (kubernetes_flags o.kubernetes_options)))))))
