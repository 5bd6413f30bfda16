-- ===== src/Kv/Kubernetes/Defs.antt =====
-- pkg/kv/kubernetes/secret.go, over the calls that it makes of k8s.io/client-go and
-- kmodules.xyz/client-go.
use unsealer.Prelude.{Option, none, some, List, [], ◌∷◌, ◌++◌, if◌then◌else◌}
use unsealer.Text.{Text, text, text_eq}
use unsealer.Effect.{
  Error, not_found_error, not_found_because, api_not_found, wrapped, Result, ok, err, Call, pure,
  wrapping, ◌>>=◌, ◌>>◌,
}
use unsealer.Kv.Defs.{Service, dummy_key, dummy_value}
use unsealer.Kv.Kubernetes.Options.{KubernetesOptions}

-- A `map[string][]byte`.
abbrev pub Data : Type 0
Data = List (Text × Text)

unfoldable pub lookup : Text → Data → Option Text
lookup k [] = none
lookup k ((j, v) ∷ d) = if text_eq k j then some v else lookup k d

unfoldable pub insert : Text → Text → Data → Data
insert k v [] = (k, v) ∷ []
insert k v ((j, w) ∷ d) = if text_eq k j then (k, v) ∷ d else (j, w) ∷ insert k v d

-- The copy of all entries but that of one key.
unfoldable pub without : Text → Data → Data
without k [] = []
without k ((j, v) ∷ d) = let rest = without k d in if text_eq k j then rest else (j, v) ∷ rest

pub record ObjectMeta : Type 0 where
  pub name : Text
  pub namespace : Text

-- The data of a secret may be a nil map.
pub record Secret : Type 0 where
  pub meta : ObjectMeta
  pub entries : Option Data

pub record KubeClient (K : Type 0) : Type 0 where
  pub get_secret : ObjectMeta → Call K Secret
  pub create_or_patch_secret : ObjectMeta → (Secret → Secret) → Call K Unit

pub record KubernetesStore (K : Type 0) : Type 0 where
  pub kube_client : KubeClient K
  pub secret_name : Text
  pub namespace : Text

-- What `NewKVService` gets from its libraries: the namespace, the configuration of the cluster and
-- the client.
pub record KubeSdk (K : Type 0) : Type 0 where
  pub current_namespace : Text
  pub in_cluster_config : Result Unit
  pub new_for_config : Result (KubeClient K)

unfoldable pub new_kv_service :
    {K : Type 0} → KubeSdk K → KubernetesOptions → Result (KubernetesStore K)
new_kv_service sdk c = elim sdk.in_cluster_config [
  | err e ↦ err (wrapped (text "failed to create in cluster config: ") e)
  | ok config ↦ elim sdk.new_for_config [
    | err e ↦ err (wrapped (text "failed to create kubernetes clientset: ") e)
    | ok client ↦ ok (record {
      kube_client = client;
      secret_name = c.secret_name;
      namespace = sdk.current_namespace;
    })
  ]
]

-- A nil map is made before the write.
abbrev pub made : Option Data → Data
made none = []
made (some d) = d

unfoldable pub set_entry : Text → Text → Secret → Secret
unfolding insert
set_entry key value s = record s { entries = some (insert key value (made s.entries)) }

-- An error of the API, where `kerror.IsNotFound` tells one from the others.
abbrev pub api_error : Error → Error
api_error api_not_found = not_found_because (text "secret not found. reason: ") api_not_found
api_error e = wrapped (text "failed to get secret. reason: ") e

abbrev pub fail_get : Result Secret → Result Secret
fail_get (ok s) = ok s
fail_get (err e) = err (api_error e)

unfoldable pub entry : Text → Secret → Result Text
unfolding lookup
entry key s = elim s.entries [
  | none ↦ err (not_found_error (text "key not found in secret data. reason: "))
  | some d ↦ elim (lookup key d) [
    | none ↦ err (not_found_error (text "key not found in secret data"))
    | some value ↦ ok value
  ]
]

module _ {K : Type 0} (k : KubernetesStore K) where
  abbrev pub secret_meta : ObjectMeta
  secret_meta = record { name = k.secret_name; namespace = k.namespace }

  unfoldable pub set : Text → Text → Call K Unit
  set key value =
      wrapping (text "failed set data in secret(" ++ (k.secret_name ++ text ")"))
        (k.kube_client.create_or_patch_secret secret_meta (set_entry key value))

  abbrev pub read_secret : Call K Secret
  read_secret w = let (r, w') = k.kube_client.get_secret secret_meta w in (fail_get r, w')

  unfoldable pub get : Text → Call K Text
  unfolding entry
  get key = do s ← read_secret; λ w. (entry key s, w)

  -- The secret that was read is written back with the dummy entry left out.
  unfoldable pub check_write_access : Call K Unit
  unfolding without
  check_write_access = do
    wrapping (text "failed to write test data: ") (set dummy_key dummy_value)
    wrapping (text "failed to get test data: ") (get dummy_key)
    sr ← read_secret
    wrapping (text "failed delete data in secret(" ++ (k.secret_name ++ text ")")) (
        k.kube_client.create_or_patch_secret sr.meta
          λ s. record s { entries = some (without dummy_key (made sr.entries)) })

  unfoldable pub service : Service K
  unfolding set get check_write_access
  service = record {
    set = set;
    get = get;
    check_write_access = check_write_access;
    test = λ key. pure tt;
  }
