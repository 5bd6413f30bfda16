-- ===== src/Kv/Kubernetes/Contract.antt =====
-- The documented behaviour of the Kubernetes API, and `KVService` of pkg/kv/kubernetes as a key store
-- over it.
use unsealer.Prelude.{
  ◌≡◌, ◌∙◌, ◌⊎◌, refl, ap, Bool, true, false, Option, none, some, arith, inl, inr, if◌then◌else◌,
}
use unsealer.Text.{Text, IsBytes, text_eq}
use unsealer.Effect.{Error, api_not_found, ok, err, Result-cases}
use unsealer.Kv.Defs.{is_not_found, dummy_key, dummy_value}
use unsealer.Kv.Contract.{KvContract, CheckContract}
use unsealer.Kv.Kubernetes.Defs.{
  lookup, without, ObjectMeta, Secret, KubeClient, KubernetesStore, made, set_entry, api_error,
  entry, secret_meta, set, get, check_write_access, service,
}
use unsealer.Kv.Kubernetes.Entries.{lookup-insert, lookup-without}

-- What `CreateOrPatch` hands to its function.
abbrev pub current : ObjectMeta → Option Secret → Secret
current meta none = record { meta = meta; entries = none }
current meta (some s) = s

abbrev pub is_api_not_found : Error → Bool
is_api_not_found api_not_found = true
is_api_not_found e = false

-- The documented behaviour of the API, over a view of the secrets. A patch that reports an error
-- has been applied or not.
pub record KubeContract {K : Type 0} (c : KubeClient K) (secrets : K → ObjectMeta → Option Secret)
    : Type 0 where
  pub get_ok :
      (m : ObjectMeta) (w : K) {s : Secret}
      → (c.get_secret m w).0 ≡ ok s
      → (secrets w m ≡ some s) × (s.meta ≡ m)
  pub get_missing :
      (m : ObjectMeta) (w : K) {e : Error}
      → (c.get_secret m w).0 ≡ err e
      → is_api_not_found e ≡ true
      → secrets w m ≡ none
  pub get_foreign :
      (m : ObjectMeta) (w : K) {e : Error} → (c.get_secret m w).0 ≡ err e → is_not_found e ≡ false
  pub get_bytes :
      (m : ObjectMeta) (w : K) {s : Secret} (j : Text) {v : Text}
      → (c.get_secret m w).0 ≡ ok s
      → lookup j (made s.entries) ≡ some v
      → IsBytes v
  pub get_keeps :
      (m : ObjectMeta) (w : K) (n : ObjectMeta) → secrets (c.get_secret m w).1 n ≡ secrets w n
  pub patch_ok :
      (m : ObjectMeta) (f : Secret → Secret) (w : K)
      → (c.create_or_patch_secret m f w).0 ≡ ok tt
      → secrets (c.create_or_patch_secret m f w).1 m ≡ some (f (current m (secrets w m)))
  pub patch_outcome :
      (m : ObjectMeta) (f : Secret → Secret) (w : K)
      → (secrets (c.create_or_patch_secret m f w).1 m ≡ some (f (current m (secrets w m))))
        ⊎ (secrets (c.create_or_patch_secret m f w).1 m ≡ secrets w m)

abbrev pub held : Text → Option Secret → Option Text
held key none = none
held key (some s) = lookup key (made s.entries)

entry_ok :
    (key : Text) (s : Secret) (v : Text) → entry key s ≡ ok v → lookup key (made s.entries) ≡ some v
unfolding entry
entry_ok key s v h = ground arith

entry_missing :
    (key : Text) (s : Secret) (e : Error) → entry key s ≡ err e → lookup key (made s.entries) ≡ none
unfolding entry
entry_missing key s e h = ground arith

api_error_missing :
    (e : Error)
    → is_not_found (api_error e) ≡ true
    → is_not_found e ≡ false
    → is_api_not_found e ≡ true
api_error_missing e h foreign = ground arith

module _ {K : Type 0} (k : KubernetesStore K) (secrets : K → ObjectMeta → Option Secret)
    (kube : KubeContract k.kube_client secrets) where
  abbrev pub stored : K → Text → Option Text
  stored w key = held key (secrets w (secret_meta k))

  held-current :
      (key : Text) (o : Option Secret)
      → lookup key (made (current (secret_meta k) o).entries) ≡ held key o
  unfolding lookup
  held-current key none = refl
  held-current key (some s) = refl

  pub get_ok : (key : Text) (w : K) {v : Text} → (get k key w).0 ≡ ok v → stored w key ≡ some v
  unfolding get
  get_ok key w {v} h = elim (Result-cases (k.kube_client.get_secret (secret_meta k) w).0) [
    | inl (s, p) ↦ ground (arith, kube.get_ok (secret_meta k) w p, entry_ok key s v)
    | inr (e, p) ↦ absurd (ground arith)
  ]

  get_missing :
      (key : Text) (w : K) {e : Error}
      → (get k key w).0 ≡ err e
      → is_not_found e ≡ true
      → stored w key ≡ none
  unfolding get
  get_missing key w {e} h missing =
      elim (Result-cases (k.kube_client.get_secret (secret_meta k) w).0) [
        | inl (s, p) ↦ ground (arith, kube.get_ok (secret_meta k) w p, entry_missing key s e)
        | inr (f, p) ↦ ground (
          arith,
          kube.get_missing (secret_meta k) w p,
          kube.get_foreign (secret_meta k) w p,
          api_error_missing f,
        )
      ]

  pub get_keeps : (key : Text) (w : K) (m : ObjectMeta) → secrets (get k key w).1 m ≡ secrets w m
  unfolding get
  get_keeps key w m = ground (arith, kube.get_keeps (secret_meta k) w m)

  pub set_ok :
      (key v : Text) (w : K) (j : Text)
      → (set k key v w).0 ≡ ok tt
      → stored (set k key v w).1 j ≡ (if text_eq key j then some v else stored w j)
  unfolding set set_entry
  set_ok key v w j h = ground (
    arith,
    kube.patch_ok (secret_meta k) (set_entry key v) w,
    lookup-insert key j v (made (current (secret_meta k) (secrets w (secret_meta k))).entries),
    held-current j (secrets w (secret_meta k)),
  )

  set_frame :
      (key v : Text) (w : K) (j : Text)
      → text_eq key j ≡ false
      → stored (set k key v w).1 j ≡ stored w j
  unfolding set set_entry
  set_frame key v w j other = ground (
    arith,
    kube.patch_outcome (secret_meta k) (set_entry key v) w,
    lookup-insert key j v (made (current (secret_meta k) (secrets w (secret_meta k))).entries),
    held-current j (secrets w (secret_meta k)),
  )

  get-IsBytes : (key : Text) (w : K) {v : Text} → (get k key w).0 ≡ ok v → IsBytes v
  unfolding get
  get-IsBytes key w {v} h = elim (Result-cases (k.kube_client.get_secret (secret_meta k) w).0) [
    | inl (s, p) ↦ kube.get_bytes (secret_meta k) w key {v = v} p (entry_ok key s v (ground arith))
    | inr (e, p) ↦ absurd (ground arith)
  ]

  abbrev pub cleared : Secret → Secret → Secret
  cleared sr s = record s { entries = some (without dummy_key (made sr.entries)) }

  -- The last step of the access check, where the secret that it has read is the current one.
  clear_lem :
      (sr : Secret) (w : K) (j : Text)
      → secrets w (secret_meta k) ≡ some sr
      → text_eq dummy_key j ≡ false
      → stored (k.kube_client.create_or_patch_secret (secret_meta k) (cleared sr) w).1 j
        ≡ stored w j
  clear_lem sr w j now other = ground (
    arith,
    kube.patch_outcome (secret_meta k) (cleared sr) w,
    lookup-without dummy_key j (made sr.entries),
  )

  check_frame :
      (w : K) (j : Text)
      → text_eq dummy_key j ≡ false
      → stored (check_write_access k w).1 j ≡ stored w j
  unfolding check_write_access
  check_frame w j other =
      let w₁ = (set k dummy_key dummy_value w).1 in
      let w₂ = (get k dummy_key w₁).1 in
      let w₃ = (k.kube_client.get_secret (secret_meta k) w₂).1 in
      let at₁ : stored w₁ j ≡ stored w j = set_frame dummy_key dummy_value w j other in
      let at₂ : stored w₂ j ≡ stored w₁ j = ap (held j) (get_keeps dummy_key w₁ (secret_meta k)) in
      let at₃ : stored w₃ j ≡ stored w₂ j =
        ap (held j) (kube.get_keeps (secret_meta k) w₂ (secret_meta k)) in
      elim (Result-cases (k.kube_client.get_secret (secret_meta k) w₂).0) [
        | inl (sr, p) ↦
            let (now, meta) = kube.get_ok (secret_meta k) w₂ p in
            let now₃ : secrets w₃ (secret_meta k) ≡ some sr =
              kube.get_keeps (secret_meta k) w₂ (secret_meta k) ∙ now in
            ground (arith, clear_lem sr w₃ j now₃ other)
        | inr (e, p) ↦ ground arith
      ]

  -- Over an API server that behaves as documented, `KVService` keeps the contract of a key store,
  -- and its access check leaves every key but its own as it was.
  pub kubernetes-KvContract : KvContract (service k) stored × CheckContract (service k) stored
  unfolding service
  kubernetes-KvContract = (
    record {
      get_ok = λ key w {v} h. get_ok key w h;
      get_bytes = λ key w {v} h. get-IsBytes key w h;
      get_missing = λ key w {e} h. get_missing key w h;
      get_keeps = λ key w j. ap (held j) (get_keeps key w (secret_meta k));
      test_keeps = λ key w j. refl;
      set_ok = λ key v w j bytes h. set_ok key v w j h;
      set_frame = set_frame;
    },
    record { check_frame = check_frame },
  )
