-- ===== src/Worker/Stores.antt =====
-- The key store that `getKVService` of pkg/worker/worker.go makes, by what it keeps.
use mathlib.Core.Path.{subst}
use unsealer.Prelude.{
  refl, ◌⊎◌, ℕ, ◌≡◌, refl, sym, ap, Bool, true, false, Option, none, some, ◌++◌, inl, inr,
  Bool-cases, if◌then◌else◌, arith,
}
use unsealer.Text.{Text, text_eq}
use unsealer.Validation.{is_blank}
use unsealer.Effect.{Error, Result, ok, err, Result-cases}
use unsealer.Base64.{decode}
use unsealer.Kv.{Service}
use unsealer.Kv.Contract.{KvContract, KvValues, KvContract-KvValues}
use unsealer.Kv.Encrypted.{CipherContract, decrypted}
use unsealer.Kv.Aws.{configured_region}
use unsealer.Kv.AwsSsm
use unsealer.Kv.AwsSsm.Defs.{AwsSsm}
use unsealer.Kv.AwsSsm.Contract.{SsmContract, ssm-KvContract}
use unsealer.Kv.AwsKms
use unsealer.Kv.AwsKms.Defs.{AwsKms, encrypt as encrypt_aws, decrypt as decrypt_aws}
use unsealer.Kv.AwsKms.Contract.{KmsContract}
use unsealer.Kv.Gcs
use unsealer.Kv.Gcs.Defs.{Object, GcsClient, GcsStorage, object_name_with_prefix}
use unsealer.Kv.Gcs.Contract.{GcsContract, gcs-KvContract}
use unsealer.Kv.CloudKms
use unsealer.Kv.CloudKms.Defs.{CloudKmsClient, GoogleKms, key_path_of}
use unsealer.Kv.CloudKms.Contract.{CloudKmsContract, google-KvContract as google_kms-KvContract}
use unsealer.Kv.Azure
use unsealer.Kv.Azure.Defs.{AzureStore, get_key_name}
use unsealer.Kv.Azure.Oauth.{get_key_vault_token, auth_grant_type}
use unsealer.Kv.Azure.Vault.{KeyVaultContract, DistinctTimes}
use unsealer.Kv.Azure.Contract.{azure-KvValues}
use unsealer.Kv.Kubernetes
use unsealer.Kv.Kubernetes.Defs.{ObjectMeta, Secret, KubeClient, KubernetesStore}
use unsealer.Kv.Kubernetes.Contract.{KubeContract, held, kubernetes-KvContract}
use unsealer.Kv.AwsKms.Options.{AwsOptions}
use unsealer.Kv.CloudKms.Options.{GoogleOptions}
use unsealer.Kv.Azure.Options.{AzureOptions}
use unsealer.Kv.Kubernetes.Options.{KubernetesOptions}
use unsealer.Worker.Options.{
  WorkerOptions, mode_google_cloud_kms_gcs, mode_aws_kms_ssm, mode_azure_key_vault,
  mode_kubernetes_secret,
}
use unsealer.Worker.Modes.{is_ok}
use unsealer.Worker.Service.{
  Backends, get_kv_service, aws_service, google_service, azure_service, kubernetes_service,
}
use unsealer.Worker.Stores.Kept.{Views}
use unsealer.Worker.Stores.Aws.{kms_of, ssm_view, aws_view, aws-KvContract}
use unsealer.Worker.Stores.Google.{gcs_view, cloud_key, google_view, google-KvContract}
use unsealer.Worker.Stores.Other.{
  azure_view, kube_view, azure_service-KvValues, kubernetes_service-KvContract,
}
pub mod Kept
mod Aws
mod Google
mod Other

-- The service of the chosen mode behaves as it is documented, and in Azure no two versions of a
-- secret have the same creation time; nothing is asked of the others. Any call may fail.
pub record Documented {K : Type 0} (b : Backends K) (v : Views K) (o : WorkerOptions) : Type 0 where
  pub parameters :
      text_eq o.mode mode_aws_kms_ssm ≡ true
      → SsmContract (b.aws.new_ssm (configured_region b.aws.metadata)) v.parameters
  -- The key of AWS encrypts, unless the parameter store does.
  pub aws_key :
      text_eq o.mode mode_aws_kms_ssm ≡ true
      → o.aws_options.use_secure_string ≡ false
      → KmsContract
          (b.aws.new_kms (configured_region b.aws.metadata))
          v.aws_plain
          (ssm_view b v o.aws_options)
  pub bucket :
      text_eq o.mode mode_google_cloud_kms_gcs ≡ true
      → (c : GcsClient K) → b.gcs ≡ ok c
      → GcsContract c v.objects
  pub google_key :
      text_eq o.mode mode_google_cloud_kms_gcs ≡ true
      → (c : CloudKmsClient K) → b.cloud_kms ≡ ok c
      → CloudKmsContract c
          (cloud_key b v o.google_options)
          v.google_plain
          (gcs_view b v o.google_options)
  pub key_vault :
      text_eq o.mode mode_azure_key_vault ≡ true
      → (token : ℕ)
      → KeyVaultContract (b.azure.new_client token) o.azure_options.vault_base_url v.secrets
  pub key_vault_times :
      text_eq o.mode mode_azure_key_vault ≡ true
      → (token : ℕ) → DistinctTimes (b.azure.new_client token) o.azure_options.vault_base_url
  pub kube_api :
      text_eq o.mode mode_kubernetes_secret ≡ true
      → (c : KubeClient K) → b.kubernetes.new_for_config ≡ ok c
      → KubeContract c v.kube_secrets

-- What the key store of the chosen mode keeps under a name.
unfoldable pub stored_by :
    {K : Type 0} → Backends K → Views K → WorkerOptions → K → Text → Option Text
stored_by b v o =
    if text_eq o.mode mode_aws_kms_ssm
    then aws_view b v o.aws_options
    else if text_eq o.mode mode_google_cloud_kms_gcs
    then google_view b v o.google_options
    else if text_eq o.mode mode_azure_key_vault
    then azure_view b v o.azure_options
    else kube_view b v o.kubernetes_options

-- Whatever the mode is, if `getKVService` returns a key store and the service of that mode behaves as
-- it is documented (secure strings are decrypted only on request, cipher texts only in their context,
-- and in Azure no two versions of a secret have the same creation time), then the key store keeps
-- what the unsealer relies on: a read returns the value that the service holds for the key in the
-- configured place and by the configured encryption, a write that succeeds stores its value and
-- changes no other key, and one that fails changes no other key. In every mode but that of Azure it
-- keeps the whole contract: only a key that is not there is reported missing.
pub get_kv_service-KvContract :
    {K : Type 0} (b : Backends K) (v : Views K) (o : WorkerOptions) (s : Service K)
    → Documented b v o
    → get_kv_service b o ≡ ok s
    → KvValues s (stored_by b v o)
      × ((text_eq o.mode mode_azure_key_vault ≡ true) ⊎ KvContract s (stored_by b v o))
unfolding get_kv_service stored_by
get_kv_service-KvContract {K} b v o s d h = elim (Bool-cases (text_eq o.mode mode_aws_kms_ssm)) [
  | inl here ↦
      let made : aws_service b o.aws_options ≡ ok s = rw here at h in
      rw here (whole (aws-KvContract b v o.aws_options s (d.parameters here) (d.aws_key here) made))
  | inr not_aws ↦ elim (Bool-cases (text_eq o.mode mode_google_cloud_kms_gcs)) [
    | inl here ↦
        let made : google_service b o.google_options ≡ ok s = rw (not_aws, here) at h in
        rw (not_aws, here)
          (whole
            (google-KvContract b v o.google_options s (d.bucket here) (d.google_key here) made))
    | inr not_google ↦ elim (Bool-cases (text_eq o.mode mode_azure_key_vault)) [
      | inl here ↦
          let made : azure_service b o.azure_options ≡ ok s = rw (not_aws, not_google, here) at h in
          let values =
            azure_service-KvValues b v o.azure_options s (d.key_vault here) (d.key_vault_times here)
              made in
          rw (not_aws, not_google, here) (values, inl refl)
      | inr not_azure ↦ elim (Bool-cases (text_eq o.mode mode_kubernetes_secret)) [
        | inl here ↦
            let made : kubernetes_service b o.kubernetes_options ≡ ok s =
              rw (not_aws, not_google, not_azure, here) at h in
            rw (not_aws, not_google, not_azure)
              (whole
                (kubernetes_service-KvContract b v o.kubernetes_options s (d.kube_api here) made))
        | inr unknown ↦ absurd (cc (rw (not_aws, not_google, not_azure, unknown) at (ap is_ok h)))
      ]
    ]
  ]
]
  where
    whole :
        {view : K → Text → Option Text} {A : Type 0}
        → KvContract s view
        → KvValues s view × (A ⊎ KvContract s view)
    whole c = (KvContract-KvValues c, inr c)
