-- ===== src/Tests/Stores.antt =====
-- The key store that the worker makes in Kubernetes, over a Kubernetes API in memory.
use mathlib.Core.Path.{subst}
use unsealer.Prelude.{true, ◌⊎◌, ◌≡◌, refl, false, none}
use unsealer.Text.{text, text_eq}
use unsealer.Effect.{ok}
use unsealer.Kv.Contract.{KvContract, KvValues}
use unsealer.Kv.Kubernetes.Defs.{service, KubernetesStore}
use unsealer.Kv.Kubernetes.Contract.{KubeContract}
use unsealer.Worker.Options.{mode_google_cloud_kms_gcs, mode_aws_kms_ssm, mode_azure_key_vault}
use unsealer.Worker.Service.{Backends, get_kv_service}
use unsealer.Worker.Stores.{Documented, stored_by, get_kv_service-KvContract}
use unsealer.Worker.Stores.Kept.{Views}
use unsealer.Tests.Worker.{worker_options}
use unsealer.Tests.Backends.{backends_with}
use unsealer.Tests.Secrets.{Cluster, shown, toy_store, toy-KubeContract}

abbrev pub cluster_backends : Backends Cluster
cluster_backends = backends_with toy_store.kube_client

abbrev pub cluster_views : Views Cluster
cluster_views = record {
  parameters = λ w key. none;
  aws_plain = λ context c. none;
  objects = λ w o. none;
  google_plain = λ c. none;
  secrets = λ w key. none;
  kube_secrets = shown;
}

not_aws : text_eq worker_options.mode mode_aws_kms_ssm ≡ false
unfolding text text_eq
not_aws = refl

not_google : text_eq worker_options.mode mode_google_cloud_kms_gcs ≡ false
unfolding text text_eq
not_google = refl

not_azure : text_eq worker_options.mode mode_azure_key_vault ≡ false
unfolding text text_eq
not_azure = refl

pub cluster-Documented : Documented cluster_backends cluster_views worker_options
cluster-Documented = record {
  parameters = λ h. absurd (cc (h, not_aws));
  aws_key = λ h p. absurd (cc (h, not_aws));
  bucket = λ h c p. absurd (cc (h, not_google));
  google_key = λ h c p. absurd (cc (h, not_google));
  key_vault = λ h token. absurd (cc (h, not_azure));
  key_vault_times = λ h token. absurd (cc (h, not_azure));
  kube_api = λ h c p.
      let same : toy_store.kube_client ≡ c = cc p in
      subst (λ x. KubeContract x shown) same toy-KubeContract;
}

abbrev pub cluster_store : KubernetesStore Cluster
cluster_store = record {
  kube_client = toy_store.kube_client;
  secret_name = worker_options.kubernetes_options.secret_name;
  namespace = text "demo";
}

pub store_made : get_kv_service cluster_backends worker_options ≡ ok (service cluster_store)
unfolding get_kv_service text text_eq
store_made = refl

get_kv_service-KvContract_example :
    KvValues (service cluster_store) (stored_by cluster_backends cluster_views worker_options)
    × ((text_eq worker_options.mode mode_azure_key_vault ≡ true)
        ⊎ KvContract
            (service cluster_store)
            (stored_by cluster_backends cluster_views worker_options))
get_kv_service-KvContract_example =
    get_kv_service-KvContract cluster_backends cluster_views worker_options (service cluster_store)
      cluster-Documented store_made
