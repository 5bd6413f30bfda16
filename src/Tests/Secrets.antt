-- ===== src/Tests/Secrets.antt =====
-- A Kubernetes API in memory, and the key store of pkg/kv/kubernetes over it.
use unsealer.Prelude.{
  ◌≡◌, ◌⊎◌, refl, ap, Bool, true, false, ◌&&◌, Option, none, some, [], ◌∷◌, arith, inl, inr,
  Bool-cases, if◌then◌else◌,
}
use unsealer.Text.{Text, IsBytes, text, text_eq, text_eq_iff, text_eq_refl}
use unsealer.Effect.{Error, plain, api_not_found, Result, ok, err, Call}
use unsealer.Kv.{is_not_found}
use unsealer.Kv.Contract.{KvContract, CheckContract}
use unsealer.Kv.Kubernetes.Defs.{Data, lookup, ObjectMeta, Secret, KubernetesStore, made, service}
use unsealer.Kv.Kubernetes.Contract.{KubeContract, current, stored, kubernetes-KvContract}
use unsealer.Kv.Kubernetes.Entries.{Bytes}
use unsealer.Kv.Kubernetes.Available.{KubeAvailable}
use unsealer.Tests.Store.{all_bytes, all_bytes-IsBytes, IsBytes-all_bytes}

abbrev pub Cluster : Type 0
Cluster = ObjectMeta → Option Secret

unfoldable pub all_values : Data → Bool
all_values [] = true
all_values ((k, v) ∷ d) = all_bytes v && all_values d

abbrev meta_eq : ObjectMeta → ObjectMeta → Bool
meta_eq m n = text_eq m.name n.name && text_eq m.namespace n.namespace

-- The API keeps only secrets under their own name whose values are bytes.
abbrev well_formed : ObjectMeta → Secret → Bool
well_formed m s = meta_eq s.meta m && all_values (made s.entries)

abbrev checked : ObjectMeta → Option Secret → Option Secret
checked m none = none
checked m (some s) = if well_formed m s then some s else none

abbrev pub shown : Cluster → ObjectMeta → Option Secret
shown w m = checked m (w m)

abbrev answer : Option Secret → Result Secret
answer none = err api_not_found
answer (some s) = ok s

abbrev pub write : ObjectMeta → Secret → Cluster → Cluster
write m s w n = if meta_eq m n then some s else w n

abbrev patch : ObjectMeta → Secret → Call Cluster Unit
patch m s w = if well_formed m s then (ok tt, write m s w) else (err (plain (text "Invalid")), w)

abbrev pub toy_store : KubernetesStore Cluster
toy_store = record {
  kube_client = record {
    get_secret = λ m w. (answer (shown w m), w);
    create_or_patch_secret = λ m f w. patch m (f (current m (shown w m))) w;
  };
  secret_name = text "vault-keys";
  namespace = text "demo";
}

meta_eq_refl : (m : ObjectMeta) → meta_eq m m ≡ true
meta_eq_refl m = rw (text_eq_refl m.name, text_eq_refl m.namespace) refl

meta_eq_same : (m n : ObjectMeta) → meta_eq m n ≡ true → m ≡ n
meta_eq_same m n h =
    let names : m.name ≡ n.name = (text_eq_iff m.name n.name).0 (ground arith) in
    let spaces : m.namespace ≡ n.namespace =
      (text_eq_iff m.namespace n.namespace).0 (ground arith) in
    λ i. record { name = names i; namespace = spaces i }

lookup-IsBytes : (j v : Text) (d : Data) → all_values d ≡ true → lookup j d ≡ some v → IsBytes v
unfolding lookup all_values
lookup-IsBytes j v [] h k = absurd (cc k)
lookup-IsBytes j v ((i, x) ∷ d) h k = elim (Bool-cases (text_eq j i)) [
  | inl same ↦ all_bytes-IsBytes v (ground arith)
  | inr other ↦ lookup-IsBytes j v d (ground arith) (ground arith)
]

shown_ok :
    (o : Option Secret) (m : ObjectMeta) (s : Secret)
    → answer (checked m o) ≡ ok s
    → (checked m o ≡ some s) × (well_formed m s ≡ true)
shown_ok none m s h = absurd (cc h)
shown_ok (some t) m s h = elim (Bool-cases (well_formed m t)) [
  | inl good ↦ (ground arith, ground arith)
  | inr bad ↦ absurd (ground arith)
]

patch_written :
    (m : ObjectMeta) (s : Secret) (w : Cluster)
    → well_formed m s ≡ true
    → shown (patch m s w).1 m ≡ some s
patch_written m s w good = rw (good, meta_eq_refl m) (rw good refl)

patch_ok :
    (m : ObjectMeta) (s : Secret) (w : Cluster)
    → (patch m s w).0 ≡ ok tt
    → shown (patch m s w).1 m ≡ some s
patch_ok m s w h = elim (Bool-cases (well_formed m s)) [
  | inl good ↦ patch_written m s w good
  | inr bad ↦ absurd (ground arith)
]

patch_outcome :
    (m : ObjectMeta) (s : Secret) (w : Cluster)
    → (shown (patch m s w).1 m ≡ some s) ⊎ (shown (patch m s w).1 m ≡ shown w m)
patch_outcome m s w = elim (Bool-cases (well_formed m s)) [
  | inl good ↦ inl (patch_written m s w good)
  | inr bad ↦ inr (rw bad refl)
]

pub toy-KubeContract : KubeContract toy_store.kube_client shown
toy-KubeContract = record {
  get_ok = λ m w {s} h.
      let (is, good) = shown_ok (w m) m s h in (is, meta_eq_same s.meta m (ground arith));
  get_missing = λ m w {e} h missing. absent (shown w m) e h;
  get_foreign = λ m w {e} h. foreign (shown w m) e h;
  get_bytes = λ m w {s} j {v} h k.
      let (is, good) = shown_ok (w m) m s h in lookup-IsBytes j v (made s.entries) (ground arith) k;
  get_keeps = λ m w n. refl;
  patch_ok = λ m f w h. patch_ok m (f (current m (shown w m))) w h;
  patch_outcome = λ m f w. patch_outcome m (f (current m (shown w m))) w;
}
  where
    absent : (o : Option Secret) (e : Error) → answer o ≡ err e → o ≡ none
    absent none e h = refl
    absent (some s) e h = absurd (cc h)

    foreign : (o : Option Secret) (e : Error) → answer o ≡ err e → is_not_found e ≡ false
    foreign none e h = ground arith
    foreign (some s) e h = absurd (cc h)

all_values-Bytes : (d : Data) → all_values d ≡ true → Bytes d
unfolding all_values
all_values-Bytes [] h = tt
all_values-Bytes ((j, v) ∷ d) h =
    (all_bytes-IsBytes v (ground arith), all_values-Bytes d (ground arith))

Bytes-all_values : (d : Data) → Bytes d → all_values d ≡ true
unfolding all_values
Bytes-all_values [] h = refl
Bytes-all_values ((j, v) ∷ d) h = rw (IsBytes-all_bytes v h.0, Bytes-all_values d h.1) refl

patch_succeeds :
    (m : ObjectMeta) (s : Secret) (w : Cluster)
    → s.meta ≡ m
    → Bytes (made s.entries)
    → (patch m s w).0 ≡ ok tt
patch_succeeds m s w name bytes =
    let good : well_formed m s ≡ true =
      rw (name, meta_eq_refl m, Bytes-all_values (made s.entries) bytes) refl in
    rw good refl

pub toy-KubeAvailable : KubeAvailable toy_store.kube_client shown
toy-KubeAvailable = record {
  get_found = λ m w s h. ap answer h;
  get_absent = λ m w h. ap answer h;
  kept_bytes = λ m w s h.
      let (is, good) = shown_ok (w m) m s (ap answer h) in
      all_values-Bytes (made s.entries) (ground arith);
  patch_succeeds = λ m f w. patch_succeeds m (f (current m (shown w m))) w;
}

kubernetes-KvContract_example :
    KvContract (service toy_store) (stored toy_store shown toy-KubeContract)
    × CheckContract (service toy_store) (stored toy_store shown toy-KubeContract)
kubernetes-KvContract_example = kubernetes-KvContract toy_store shown toy-KubeContract
