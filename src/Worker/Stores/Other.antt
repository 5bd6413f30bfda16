-- ===== src/Worker/Stores/Other.antt =====
-- The key stores that `getKVService` of pkg/worker/worker.go makes for Azure and for Kubernetes.
use mathlib.Core.Path.{subst}
use unsealer.Prelude.{ℕ, ◌≡◌, refl, Option, ◌++◌, inl, inr, arith}
use unsealer.Text.{Text}
use unsealer.Effect.{ok, Result-cases}
use unsealer.Kv.{Service}
use unsealer.Kv.Contract.{KvContract, KvValues}
use unsealer.Kv.Azure
use unsealer.Kv.Azure.Defs.{AzureStore, get_key_name}
use unsealer.Kv.Azure.Oauth.{get_key_vault_token, auth_grant_type}
use unsealer.Kv.Azure.Vault.{KeyVaultContract, DistinctTimes}
use unsealer.Kv.Azure.Contract.{azure-KvValues}
use unsealer.Kv.Kubernetes
use unsealer.Kv.Kubernetes.Defs.{KubeClient, KubernetesStore}
use unsealer.Kv.Kubernetes.Contract.{KubeContract, held, kubernetes-KvContract}
use unsealer.Kv.Azure.Options.{AzureOptions}
use unsealer.Kv.Kubernetes.Options.{KubernetesOptions}
use unsealer.Worker.Service.{Backends, azure_service, kubernetes_service}
use unsealer.Base64.{decoded}
use unsealer.Worker.Stores.Kept.{Views, KvContract-same, not_made}

module _ {K : Type 0} (b : Backends K) (v : Views K) where
  abbrev pub azure_of : ℕ → AzureOptions → AzureStore K
  azure_of token o = record {
    key_client = b.azure.new_client token;
    vault_base_url = o.vault_base_url;
    secret_prefix = o.secret_prefix;
  }

  abbrev pub azure_view : AzureOptions → K → Text → Option Text
  azure_view o w key = decoded (v.secrets w (o.secret_prefix ++ key))

  pub azure_service-KvValues :
      (o : AzureOptions) (s : Service K)
      → ((token : ℕ) → KeyVaultContract (b.azure.new_client token) o.vault_base_url v.secrets)
      → ((token : ℕ) → DistinctTimes (b.azure.new_client token) o.vault_base_url)
      → azure_service b o ≡ ok s
      → KvValues s (azure_view o)
  unfolding azure_service Azure.new_kv_service get_key_name
  azure_service-KvValues o s vault times h =
      elim (Result-cases (get_key_vault_token b.azure.oauth o.auth_config auth_grant_type)) [
        | inl (token, p) ↦ elim (Result-cases b.azure.add_to_user_agent) [
          | inl (added, q) ↦
              let k = azure_of token o in
              let run : azure_service b o ≡ ok (Azure.service k) = ground (arith, p, q) in
              let same : Azure.service k ≡ s = cc (run, h) in
              subst (λ t. KvValues t (azure_view o)) same
                (azure-KvValues k v.secrets (vault token) (times token)).0
          | inr (e, q) ↦ absurd (not_made h (ground (arith, p, q)))
        ]
        | inr (e, p) ↦ absurd (not_made h (ground (arith, p)))
      ]

  abbrev pub kube_view : KubernetesOptions → K → Text → Option Text
  kube_view o w key = held key (
      v.kube_secrets w
        (record { name = o.secret_name; namespace = b.kubernetes.current_namespace }))

  pub kubernetes_service-KvContract :
      (o : KubernetesOptions) (s : Service K)
      → ((c : KubeClient K) → b.kubernetes.new_for_config ≡ ok c → KubeContract c v.kube_secrets)
      → kubernetes_service b o ≡ ok s
      → KvContract s (kube_view o)
  unfolding kubernetes_service Kubernetes.new_kv_service
  kubernetes_service-KvContract o s kube h = elim (Result-cases b.kubernetes.in_cluster_config) [
    | inl (config, p) ↦ elim (Result-cases b.kubernetes.new_for_config) [
      | inl (c, q) ↦
          let k : KubernetesStore K = record {
            kube_client = c;
            secret_name = o.secret_name;
            namespace = b.kubernetes.current_namespace;
          } in
          let run : kubernetes_service b o ≡ ok (Kubernetes.service k) = rw (p, q) refl in
          let same : Kubernetes.service k ≡ s = cc (run, h) in
          KvContract-same (kubernetes-KvContract k v.kube_secrets (kube c q)).0 same refl
      | inr (e, q) ↦ absurd (not_made h (rw (p, q) refl))
    ]
    | inr (e, p) ↦ absurd (not_made h (rw p refl))
  ]
