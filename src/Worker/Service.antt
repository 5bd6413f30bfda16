-- ===== src/Worker/Service.antt =====
-- `getKVService` of pkg/worker/worker.go: the key store that the mode names.
use unsealer.Prelude.{◌++◌, if◌then◌else◌}
use unsealer.Text.{Text, text, text_eq}
use unsealer.Effect.{Error, plain, Result, ok, err, wrap_result}
use unsealer.Kv.{Service}
use unsealer.Kv.Aws.{AwsSdk}
use unsealer.Kv.AwsSsm
use unsealer.Kv.AwsKms
use unsealer.Kv.Gcs
use unsealer.Kv.Gcs.{GcsClient}
use unsealer.Kv.CloudKms
use unsealer.Kv.CloudKms.{CloudKmsClient}
use unsealer.Kv.Azure
use unsealer.Kv.Azure.{KeyVaultSdk}
use unsealer.Kv.Kubernetes
use unsealer.Kv.Kubernetes.{KubeSdk}
use unsealer.Kv.AwsKms.Options.{AwsOptions}
use unsealer.Kv.CloudKms.Options.{GoogleOptions}
use unsealer.Kv.Azure.Options.{AzureOptions}
use unsealer.Kv.Kubernetes.Options.{KubernetesOptions}
use unsealer.Worker.Options.{
  WorkerOptions, mode_google_cloud_kms_gcs, mode_aws_kms_ssm, mode_azure_key_vault,
  mode_kubernetes_secret,
}

-- The libraries of the four modes, over one state `K` of what they reach.
pub record Backends (K : Type 0) : Type 0 where
  pub aws : AwsSdk K
  pub gcs : Result (GcsClient K)
  pub cloud_kms : Result (CloudKmsClient K)
  pub azure : KeyVaultSdk K
  pub kubernetes : KubeSdk K

abbrev pub then_result : {A B : Type 0} → Result A → (A → Result B) → Result B
then_result (ok a) f = f a
then_result (err e) f = err e

abbrev pub unknown_mode : Text → Error
unknown_mode mode = plain (text "failed to create unkown mode " ++ mode)

module _ {K : Type 0} (b : Backends K) where
  unfoldable pub aws_service : AwsOptions → Result (Service K)
  unfolding AwsSsm.new AwsSsm.service AwsKms.new AwsKms.service
  aws_service o =
      then_result
        (wrap_result (text "failed to create aws ssm service")
          (AwsSsm.new b.aws o.use_secure_string o.ssm_key_prefix))
        λ ssm.
          if o.use_secure_string
          then ok (AwsSsm.service ssm)
          else then_result
              (wrap_result (text "failed to create kv service for aws")
                (AwsKms.new b.aws (AwsSsm.service ssm) o.kms_key_id))
              (λ kms. ok (AwsKms.service kms))

  unfoldable pub google_service : GoogleOptions → Result (Service K)
  unfolding Gcs.new Gcs.service CloudKms.new CloudKms.service
  google_service o =
      then_result
        (wrap_result (text "failed to create google gcs service")
          (Gcs.new b.gcs o.storage_bucket o.storage_prefix))
        λ gcs.
          then_result
            (wrap_result (text "failed to create kv service for aws") (
              CloudKms.new b.cloud_kms (Gcs.service gcs) o.kms_project o.kms_location o.kms_key_ring
                o.kms_crypto_key))
            (λ kms. ok (CloudKms.service kms))

  unfoldable pub azure_service : AzureOptions → Result (Service K)
  unfolding Azure.new_kv_service Azure.service
  azure_service o =
      then_result
        (wrap_result (text "failed to create azure kv service") (Azure.new_kv_service b.azure o))
        (λ k. ok (Azure.service k))

  unfoldable pub kubernetes_service : KubernetesOptions → Result (Service K)
  unfolding Kubernetes.new_kv_service Kubernetes.service
  kubernetes_service o =
      then_result
        (wrap_result (text "failed to create kv service for kubernetes")
          (Kubernetes.new_kv_service b.kubernetes o))
        (λ k. ok (Kubernetes.service k))

  unfoldable pub get_kv_service : WorkerOptions → Result (Service K)
  unfolding aws_service google_service azure_service kubernetes_service
  get_kv_service o =
      if text_eq o.mode mode_aws_kms_ssm
      then aws_service o.aws_options
      else if text_eq o.mode mode_google_cloud_kms_gcs
      then google_service o.google_options
      else if text_eq o.mode mode_azure_key_vault
      then azure_service o.azure_options
      else if text_eq o.mode mode_kubernetes_secret
      then kubernetes_service o.kubernetes_options
      else err (unknown_mode o.mode)
