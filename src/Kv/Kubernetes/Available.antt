-- ===== src/Kv/Kubernetes/Available.antt =====
-- `KVService` of pkg/kv/kubernetes over an API server that answers.
use unsealer.Prelude.{◌≡◌, ◌∙◌, refl, true, Option, Option-cases, none, some, arith, inl, inr}
use unsealer.Text.{Text, IsBytes, text, text_eq_refl}
use unsealer.Effect.{Error, not_found_error, api_not_found, ok, err}
use unsealer.Kv.Defs.{is_not_found, dummy_key, dummy_value}
use unsealer.Kv.Contract.{KvAvailable}
use unsealer.Kv.Kubernetes.Defs.{
  lookup, ObjectMeta, Secret, KubeClient, KubernetesStore, made, set_entry, api_error, entry,
  secret_meta, set, get, check_write_access, service,
}
use unsealer.Kv.Kubernetes.Entries.{Bytes, insert-Bytes, without-Bytes}
use unsealer.Kv.Kubernetes.Contract.{KubeContract, current, stored, get_keeps, set_ok, cleared}

-- An API server that is reached and permits all calls: a secret is returned if there is one, and a
-- patch is applied if it leaves the secret's name alone and its values are bytes.
pub record KubeAvailable {K : Type 0} (c : KubeClient K) (secrets : K → ObjectMeta → Option Secret)
    : Type 0 where
  pub get_found :
      (m : ObjectMeta) (w : K) (s : Secret) → secrets w m ≡ some s → (c.get_secret m w).0 ≡ ok s
  pub get_absent :
      (m : ObjectMeta) (w : K) → secrets w m ≡ none → (c.get_secret m w).0 ≡ err api_not_found
  pub kept_bytes :
      (m : ObjectMeta) (w : K) (s : Secret) → secrets w m ≡ some s → Bytes (made s.entries)
  pub patch_succeeds :
      (m : ObjectMeta) (f : Secret → Secret) (w : K)
      → (f (current m (secrets w m))).meta ≡ m
      → Bytes (made (f (current m (secrets w m))).entries)
      → (c.create_or_patch_secret m f w).0 ≡ ok tt

entry_found :
    (key : Text) (s : Secret) (v : Text) → lookup key (made s.entries) ≡ some v → entry key s ≡ ok v
unfolding entry lookup
entry_found key s v h = ground arith

entry_absent :
    (key : Text) (s : Secret)
    → lookup key (made s.entries) ≡ none
    → (e : Error) × (entry key s ≡ err e) × (is_not_found e ≡ true)
unfolding entry lookup
entry_absent key s h = elim (Option-cases s.entries) [
  | inl p ↦ (not_found_error (text "key not found in secret data. reason: "), rw p refl, refl)
  | inr (d, p) ↦
      let gone : lookup key d ≡ none = rw p at h in
      (not_found_error (text "key not found in secret data"), ground (arith, p, gone), refl)
]

module _ {K : Type 0} (k : KubernetesStore K) (secrets : K → ObjectMeta → Option Secret)
    (kube : KubeContract k.kube_client secrets) (up : KubeAvailable k.kube_client secrets) where
  abbrev here : ObjectMeta
  here = secret_meta k

  get_found :
      (key : Text) (w : K) (v : Text)
      → stored k secrets kube w key ≡ some v
      → (get k key w).0 ≡ ok v
  unfolding get
  get_found key w v h = elim (Option-cases (secrets w here)) [
    | inl p ↦ absurd (ground arith)
    | inr (s, p) ↦ ground (arith, up.get_found here w s p, entry_found key s v)
  ]

  get_absent :
      (key : Text) (w : K)
      → stored k secrets kube w key ≡ none
      → (e : Error) × ((get k key w).0 ≡ err e) × (is_not_found e ≡ true)
  unfolding get
  get_absent key w h = elim (Option-cases (secrets w here)) [
    | inl p ↦ (api_error api_not_found, ground (arith, up.get_absent here w p), refl)
    | inr (s, p) ↦
        let gone : lookup key (made s.entries) ≡ none = rw p at h in
        let (e, missing, is) = entry_absent key s gone in
        (e, ground (arith, up.get_found here w s p, missing), is)
  ]

  current_kept :
      (w : K)
      → ((current here (secrets w here)).meta ≡ here)
        × Bytes (made (current here (secrets w here)).entries)
  current_kept w = elim (Option-cases (secrets w here)) [
    | inl p ↦ rw p (refl, tt)
    | inr (s, p) ↦ rw p ((kube.get_ok here w (up.get_found here w s p)).1, up.kept_bytes here w s p)
  ]

  set_succeeds : (key v : Text) (w : K) → IsBytes v → (set k key v w).0 ≡ ok tt
  unfolding set set_entry
  set_succeeds key v w bytes =
      let (name, kept) = current_kept w in
      rw
        (up.patch_succeeds here (set_entry key v) w name
          (insert-Bytes key v (made (current here (secrets w here)).entries) bytes kept))
        refl

  -- A write leaves a secret there.
  set_there :
      (key v : Text) (w : K) → IsBytes v → (s : Secret) × (secrets (set k key v w).1 here ≡ some s)
  unfolding set set_entry
  set_there key v w bytes =
      let (name, kept) = current_kept w in
      let done =
        up.patch_succeeds here (set_entry key v) w name
          (insert-Bytes key v (made (current here (secrets w here)).entries) bytes kept) in
      (set_entry key v (current here (secrets w here)), kube.patch_ok here (set_entry key v) w done)

  dummy-IsBytes : IsBytes dummy_value
  unfolding text
  dummy-IsBytes = ground arith

  check_succeeds : (w : K) → (check_write_access k w).0 ≡ ok tt
  unfolding check_write_access
  check_succeeds w =
      let w₁ = (set k dummy_key dummy_value w).1 in
      let written = set_succeeds dummy_key dummy_value w dummy-IsBytes in
      let there : stored k secrets kube w₁ dummy_key ≡ some dummy_value =
        rw (set_ok k secrets kube dummy_key dummy_value w dummy_key written)
          (rw (text_eq_refl dummy_key) refl) in
      let read = get_found dummy_key w₁ dummy_value there in
      let w₂ = (get k dummy_key w₁).1 in
      let (s, secret) = set_there dummy_key dummy_value w dummy-IsBytes in
      let still : secrets w₂ here ≡ some s = get_keeps k secrets kube dummy_key w₁ here ∙ secret in
      let answer = up.get_found here w₂ s still in
      let w₃ = (k.kube_client.get_secret here w₂).1 in
      let last : secrets w₃ here ≡ some s = kube.get_keeps here w₂ here ∙ still in
      let name : s.meta ≡ here = (kube.get_ok here w₂ answer).1 in
      let patched : (k.kube_client.create_or_patch_secret s.meta (cleared k secrets kube s) w₃).0
          ≡ ok tt =
        rw name (
          up.patch_succeeds here (cleared k secrets kube s) w₃ (rw last name)
            (without-Bytes dummy_key (made s.entries) (up.kept_bytes here w₃ s last))) in
      ground (arith, written, read, answer, patched)

  -- Over an API server that behaves as documented, is reached and permits all calls, `KVService`
  -- answers every call: a stored value is returned, a missing key is reported missing, and the
  -- writes of bytes, the tests and the access check succeed.
  pub kubernetes-KvAvailable : KvAvailable (service k) (stored k secrets kube)
  unfolding service
  kubernetes-KvAvailable = record {
    get_found = get_found;
    get_absent = get_absent;
    set_succeeds = set_succeeds;
    test_succeeds = λ key w. refl;
    check_succeeds = check_succeeds;
  }
