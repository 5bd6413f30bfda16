-- ===== src/Worker/Modes.antt =====
-- The validation of pkg/worker/options.go and the choice of the key store in pkg/worker/worker.go.
use unsealer.Prelude.{
  ℕ, ◌≡◌, inl, inr, refl, Bool, true, false, not, ◌&&◌, [], ◌++◌, arith, Bool-cases,
}
use unsealer.Text.{text_eq}
use unsealer.Effect.{Result, ok, err}
use unsealer.Validation.{complain, append-eq-nil, complain-eq-nil, is_blank}
use unsealer.Kv.{Service}
use unsealer.Kv.AwsKms.Options.{AwsOptions, validate_aws}
use unsealer.Kv.Gcs.{GcsClient}
use unsealer.Kv.CloudKms.{CloudKmsClient}
use unsealer.Kv.Kubernetes.{KubeClient}
use unsealer.Kv.CloudKms.Options.{validate_google}
use unsealer.Kv.Kubernetes.Options.{KubernetesOptions, validate_kubernetes}
use unsealer.Vault.Auth.Options.{validate_auth}
use unsealer.Vault.Policy.Options.{validate_policy}
use unsealer.Vault.Unseal.Options.{validate_unseal}
use unsealer.Kv.AwsSsm
use unsealer.Kv.AwsKms
use unsealer.Kv.Gcs
use unsealer.Kv.CloudKms
use unsealer.Kv.Azure
use unsealer.Kv.Kubernetes
use unsealer.Kv.Azure.Options.{AzureOptions, validate_azure}
use unsealer.Kv.Azure.Credentials.{AzureReady, get_key_vault_token-validate_azure}
use unsealer.Kv.Azure.Oauth.{get_key_vault_token, auth_grant_type}
use unsealer.Worker.Options.{
  WorkerOptions, invalid_mode, validate_worker, mode_google_cloud_kms_gcs, mode_aws_kms_ssm,
  mode_azure_key_vault, mode_kubernetes_secret, in_mode,
}
use unsealer.Worker.Service.{
  Backends, get_kv_service, aws_service, google_service, azure_service, kubernetes_service,
}

-- The libraries of the chosen mode make what they are asked for; nothing is asked of the others.
pub record Ready {K : Type 0} (b : Backends K) (o : WorkerOptions) : Type 0 where
  pub aws_session : text_eq o.mode mode_aws_kms_ssm ≡ true → b.aws.new_session ≡ ok tt
  pub gcs_client :
      text_eq o.mode mode_google_cloud_kms_gcs ≡ true → (c : GcsClient K) × (b.gcs ≡ ok c)
  pub cloud_kms_client :
      text_eq o.mode mode_google_cloud_kms_gcs ≡ true
      → (c : CloudKmsClient K) × (b.cloud_kms ≡ ok c)
  pub azure_libraries :
      text_eq o.mode mode_azure_key_vault ≡ true
      → AzureReady b.azure.oauth o.azure_options.auth_config
  pub azure_user_agent :
      text_eq o.mode mode_azure_key_vault ≡ true → b.azure.add_to_user_agent ≡ ok tt
  pub cluster :
      text_eq o.mode mode_kubernetes_secret ≡ true → b.kubernetes.in_cluster_config ≡ ok tt
  pub kube_client :
      text_eq o.mode mode_kubernetes_secret ≡ true
      → (c : KubeClient K) × (b.kubernetes.new_for_config ≡ ok c)

abbrev pub is_ok : {A : Type 0} → Result A → Bool
is_ok (ok a) = true
is_ok (err e) = false

from_is_ok : {A : Type 0} (r : Result A) → is_ok r ≡ true → (a : A) × (r ≡ ok a)
from_is_ok (ok a) h = (a, refl)
from_is_ok (err e) h = absurd (cc h)

aws_tests :
    (o : AwsOptions)
    → validate_aws o ≡ []
    → is_blank o.kms_key_id && not o.use_secure_string ≡ false
unfolding validate_aws
aws_tests o h =
    complain-eq-nil _ _
      (append-eq-nil (complain (is_blank o.kms_key_id && not o.use_secure_string) _) _ h).0

-- What `Validate` tests of the mode and of the options of AWS and Azure.
mode_tests :
    (o : WorkerOptions)
    → validate_worker o ≡ []
    → (invalid_mode o ≡ false)
      × (in_mode o mode_aws_kms_ssm (validate_aws o.aws_options) ≡ [])
      × (in_mode o mode_azure_key_vault (validate_azure o.azure_options) ≡ [])
unfolding validate_worker
mode_tests o h =
    let (mode, rest) = append-eq-nil (complain (invalid_mode o) _) _ h in
    let (_, rest₁) = append-eq-nil (validate_unseal o.unsealer_options) _ rest in
    let (_, rest₂) = append-eq-nil (validate_auth o.authenticator_options) _ rest₁ in
    let (_, rest₃) = append-eq-nil (validate_policy o.policy_manager_options) _ rest₂ in
    let (_, rest₄) =
      append-eq-nil (in_mode o mode_google_cloud_kms_gcs (validate_google o.google_options)) _
        rest₃ in
    let (aws, rest₅) =
      append-eq-nil (in_mode o mode_aws_kms_ssm (validate_aws o.aws_options))
        (in_mode o mode_azure_key_vault (validate_azure o.azure_options)
          ++ in_mode o mode_kubernetes_secret (validate_kubernetes o.kubernetes_options))
        rest₄ in
    let (azure, _) =
      append-eq-nil (in_mode o mode_azure_key_vault (validate_azure o.azure_options)) _ rest₅ in
    (complain-eq-nil (invalid_mode o) _ mode, aws, azure)

module _ {K : Type 0} (b : Backends K) where
  aws_ready :
      (o : AwsOptions)
      → b.aws.new_session ≡ ok tt
      → is_blank o.kms_key_id && not o.use_secure_string ≡ false
      → is_ok (aws_service b o) ≡ true
  unfolding aws_service AwsSsm.new AwsSsm.new_with_session AwsKms.new AwsKms.new_with_session
  aws_ready o session tests = elim (Bool-cases o.use_secure_string) [
    | inl secure ↦ rw (session, secure) refl
    | inr not_secure ↦
        let named : is_blank o.kms_key_id ≡ false = ground arith in
        rw (session, not_secure, named) refl
  ]

  google_ready :
      (o : WorkerOptions) {c : GcsClient K} {d : CloudKmsClient K}
      → b.gcs ≡ ok c
      → b.cloud_kms ≡ ok d
      → is_ok (google_service b o.google_options) ≡ true
  unfolding google_service Gcs.new CloudKms.new
  google_ready o gcs kms = rw (gcs, kms) refl

  azure_ready :
      (o : AzureOptions) {token : ℕ}
      → get_key_vault_token b.azure.oauth o.auth_config auth_grant_type ≡ ok token
      → b.azure.add_to_user_agent ≡ ok tt
      → is_ok (azure_service b o) ≡ true
  unfolding azure_service Azure.new_kv_service
  azure_ready o token agent = ground (arith, token, agent)

  kubernetes_ready :
      (o : KubernetesOptions) {c : KubeClient K}
      → b.kubernetes.in_cluster_config ≡ ok tt
      → b.kubernetes.new_for_config ≡ ok c
      → is_ok (kubernetes_service b o) ≡ true
  unfolding kubernetes_service Kubernetes.new_kv_service
  kubernetes_ready o cluster client = rw (cluster, client) refl

pub get_kv_service-validate_worker :
    {K : Type 0} (b : Backends K) (o : WorkerOptions)
    → Ready b o
    → (text_eq o.mode mode_azure_key_vault ≡ true
        → o.azure_options.auth_config.use_managed_identity_extension ≡ false
        → is_blank o.azure_options.auth_config.aad_client_id ≡ false)
    → validate_worker o ≡ []
    → (s : Service K) × (get_kv_service b o ≡ ok s)
unfolding get_kv_service
get_kv_service-validate_worker b o ready named h =
    from_is_ok (get_kv_service b o) (elim (Bool-cases (text_eq o.mode mode_aws_kms_ssm)) [
      | inl here ↦
          rw here (
            aws_ready b o.aws_options (ready.aws_session here) (aws_tests o.aws_options (aws here)))
      | inr other ↦ elim (Bool-cases (text_eq o.mode mode_google_cloud_kms_gcs)) [
        | inl here ↦
            rw (other, here)
              (google_ready b o (ready.gcs_client here).1 (ready.cloud_kms_client here).1)
        | inr other₂ ↦ elim (Bool-cases (text_eq o.mode mode_azure_key_vault)) [
          | inl here ↦
              let (token, granted) =
                get_key_vault_token-validate_azure b.azure.oauth o.azure_options
                  (ready.azure_libraries here) (named here) (azure here) in
              rw (other, other₂, here)
                (azure_ready b o.azure_options granted (ready.azure_user_agent here))
          | inr other₃ ↦
              let here : text_eq o.mode mode_kubernetes_secret ≡ true =
                ground (arith, (mode_tests o h).0) in
              rw (other, other₂, other₃, here)
                (kubernetes_ready b o.kubernetes_options (ready.cluster here)
                  (ready.kube_client here).1)
        ]
      ]
    ])
  where
    aws : text_eq o.mode mode_aws_kms_ssm ≡ true → validate_aws o.aws_options ≡ []
    aws here = rw here at ((mode_tests o h).1)

    azure : text_eq o.mode mode_azure_key_vault ≡ true → validate_azure o.azure_options ≡ []
    azure here = rw here at ((mode_tests o h).2)
