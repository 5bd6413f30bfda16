-- ===== src/Kv/Azure/Contract.antt =====
-- `KVService` of pkg/kv/azure as a key store.
use unsealer.Prelude.{
  ◌≡◌, ◌∙◌, ◌⊎◌, refl, sym, ap, true, false, Option, some, [], arith, inl, inr, if◌then◌else◌,
  Option-cases, Bool-cases,
}
use unsealer.Text.{Text, IsBytes, text, text_eq, text_eq-append}
use unsealer.Effect.{Error, ok, err, Result-cases}
use unsealer.Base64.{decoded, encode, decode}
use unsealer.Base64.RoundTrip.{decode-encode, decode-IsBytes}
use unsealer.Kv.Defs.{dummy_key, dummy_value, is_not_found}
use unsealer.Effect.{wrapping, wrap_result_ok}
use unsealer.Effect.Keeps.{Keeps-bind, Keeps-wrapping}
use unsealer.Kv.Contract.{KvValues, CheckContract}
use unsealer.Kv.Azure.Versions.{Versions, Latest, no_version, to_string, scan_pages}
use unsealer.Kv.Azure.Latest.{
  listed, is_complete, is_complete-scan_pages, IsLatest, IsLatest-IsNewest,
}
use unsealer.Kv.Azure.Defs.{
  SecretSetParameters, AzureStore, get_key_name, set, set_secret, get, get_secret,
  get_latest_version_of_secret, check_write_access, service,
}
use unsealer.Kv.Azure.Reads.{get_reads_latest}
use unsealer.Kv.Azure.Vault.{KeyVaultContract, DistinctTimes}

module _ {K : Type 0} (k : AzureStore K) (current : K → Text → Option Text)
    (azure : KeyVaultContract k.key_client k.vault_base_url current) where
  abbrev pub stored : K → Text → Option Text
  stored w key = decoded (current w (get_key_name k key))

  name_eq : (i j : Text) → text_eq (get_key_name k i) (get_key_name k j) ≡ text_eq i j
  unfolding get_key_name
  name_eq i j = text_eq-append k.secret_prefix i j

  get-IsBytes : (key : Text) (w : K) {v : Text} → (get k key w).0 ≡ ok v → IsBytes v
  get-IsBytes key w {v} h =
      let (p, r, text_read, listing, which, read, decodes) = get_reads_latest k key w {v = v} h in
      decode-IsBytes (to_string text_read) v decodes

  pub get_keeps : (key : Text) (w : K) (j : Text) → current (get k key w).1 j ≡ current w j
  unfolding get get_secret get_latest_version_of_secret
  get_keeps key w j =
      let name = get_key_name k key in
      elim (Result-cases (k.key_client.get_secret_versions k.vault_base_url name 20 w).0) [
        | inl (p, listing) ↦ elim (Result-cases (scan_pages no_version p)) [
          | inl (r, scanned) ↦ ground (
            arith,
            azure.get_keeps name r.version
                (k.key_client.get_secret_versions k.vault_base_url name 20 w).1 j,
            azure.versions_keeps name w j,
          )
          | inr (e, scanned) ↦ ground (arith, azure.versions_keeps name w j)
        ]
        | inr (e, listing) ↦ ground (arith, azure.versions_keeps name w j)
      ]

  pub set_current :
      (key v : Text) (w : K) (j : Text)
      → (set k key v w).0 ≡ ok tt
      → current (set k key v w).1 j
        ≡ (if text_eq (get_key_name k key) j then some (encode v) else current w j)
  unfolding set set_secret
  set_current key v w j h =
      let p : SecretSetParameters = record { value = encode v; content_type = text "password" } in
      azure.set_ok (get_key_name k key) p w j (wrap_result_ok _ _ h)

  pub set_frame :
      (key v : Text) (w : K) (j : Text)
      → text_eq (get_key_name k key) j ≡ false
      → current (set k key v w).1 j ≡ current w j
  unfolding set set_secret
  set_frame key v w j other = azure.set_frame (get_key_name k key) _ w j other

  set_stored :
      (key v : Text) (w : K) (j : Text)
      → IsBytes v
      → (set k key v w).0 ≡ ok tt
      → stored (set k key v w).1 j ≡ (if text_eq key j then some v else stored w j)
  set_stored key v w j bytes h =
      let now = set_current key v w (get_key_name k j) h in
      elim (Bool-cases (text_eq key j)) [
        | inl same ↦
            ap decoded (rw (name_eq key j ∙ same) at now) ∙ decode-encode v bytes ∙ rw same refl
        | inr other ↦ ap decoded (rw (name_eq key j ∙ other) at now) ∙ rw other refl
      ]

  check_frame :
      k.secret_prefix ≡ []
      → (w : K) (j : Text) → text_eq dummy_key j ≡ false
      → stored (check_write_access k w).1 j ≡ stored w j
  unfolding check_write_access
  check_frame bare w j other =
      let name = get_key_name k j in
      let P : K → Type 0 = λ w'. current w' name ≡ current w name in
      let differs : text_eq (get_key_name k dummy_key) name ≡ false = name_eq dummy_key j ∙ other in
      let unprefixed : text_eq dummy_key name ≡ false = unfold get_key_name in rw bare other in
      ap decoded (
        (Keeps-bind {P = P}
            (wrapping (text "failed to write test file") (set k dummy_key dummy_value)) _
            (record { at = λ w' h. set_frame dummy_key dummy_value w' name differs ∙ h })
            λ written.
              Keeps-bind (wrapping (text "failed to get test file") (get k dummy_key)) _
                (record { at = λ w' h. get_keeps dummy_key w' name ∙ h })
                λ v.
                  Keeps-wrapping (text "failed to delete test file")
                    (k.key_client.delete_secret k.vault_base_url dummy_key)
                    (record {
                      at = λ w' h. azure.delete_frame dummy_key w' name unprefixed ∙ h;
                    })).at
          w refl)

  -- `Get` has one kind of error.
  error_missing : (key : Text) (w : K) {e : Error} → (get k key w).0 ≡ err e → is_not_found e ≡ true
  unfolding get get_secret get_latest_version_of_secret
  error_missing key w {e} h = elim (Result-cases (get_secret k (get_key_name k key) w).0) [
    | inl (d, read) ↦ elim (Option-cases (decode (to_string d))) [
      | inl bad ↦ ground arith
      | inr (value, decodes) ↦ absurd (ground arith)
    ]
    | inr (f, read) ↦ ground arith
  ]

  -- With no prefix, the access check leaves every key but its own as it was.
  pub azure-CheckContract : k.secret_prefix ≡ [] → CheckContract (service k) stored
  unfolding service
  azure-CheckContract bare = record { check_frame = check_frame bare }

  -- A `Get` that returns a value has read all pages.
  get_complete :
      (key : Text) (w : K) {v : Text} {p : Versions}
      → (get k key w).0 ≡ ok v
      → (k.key_client.get_secret_versions k.vault_base_url (get_key_name k key) 20 w).0 ≡ ok p
      → is_complete p ≡ true
  unfolding get get_secret get_latest_version_of_secret
  get_complete key w {v} {p} h listing = elim (Result-cases (scan_pages no_version p)) [
    | inl (r, scanned) ↦ is_complete-scan_pages no_version p scanned
    | inr (e, scanned) ↦ absurd (ground arith)
  ]

  module _ (times : DistinctTimes k.key_client k.vault_base_url) where
    -- What the versions and the read of one of them say of the current value.
    read_is_current :
        (name : Text) (w : K) (p : Versions) (r : Latest) (d : Option Text)
        → (k.key_client.get_secret_versions k.vault_base_url name 20 w).0 ≡ ok p
        → is_complete p ≡ true
        → ((listed p ≡ []) × (r ≡ no_version)) ⊎ IsLatest r (listed p)
        → (k.key_client.get_secret k.vault_base_url name r.version
            (k.key_client.get_secret_versions k.vault_base_url name 20 w).1).0
          ≡ ok d
        → current w name ≡ some (to_string d)
    read_is_current name w p r d listing whole which read = elim which [
      | inl (bare, unset) ↦
          let w₁ = (k.key_client.get_secret_versions k.vault_base_url name 20 w).1 in
          let version : r.version ≡ [] = ap (λ (l : Latest). l.version) unset in
          let now = azure.read_current name w₁ {d = d} (rw version at read) in
          sym (azure.versions_keeps name w name) ∙ now
      | inr latest ↦
          azure.read_latest name w listing whole
            (IsLatest-IsNewest r (listed p) (times.distinct name w listing) latest) read
    ]

    -- The value that `Get` returns is the current one.
    get_ok : (key : Text) (w : K) {v : Text} → (get k key w).0 ≡ ok v → stored w key ≡ some v
    get_ok key w {v} h =
        let (p, r, text_read, listing, which, read, decodes) = get_reads_latest k key w {v = v} h in
        ap decoded (
          read_is_current (get_key_name k key) w p r text_read listing
            (get_complete key w h listing) which read)
        ∙ decodes

    -- Over a key vault that behaves as documented, where no two versions of a secret have the same
    -- creation time, and with any prefix: `KVService` keeps the contract of a key store but for what a
    -- missing key says, since every error of its `Get` is reported as a missing key.
    pub azure-KvValues :
        KvValues (service k) stored
        × ((key : Text) (w : K) (e : Error)
            → ((service k).get key w).0 ≡ err e
            → is_not_found e ≡ true)
    unfolding service
    azure-KvValues = (
      record {
        get_ok = λ key w {v} h. get_ok key w h;
        get_bytes = λ key w {v} h. get-IsBytes key w h;
        get_keeps = λ key w j. ap decoded (get_keeps key w (get_key_name k j));
        test_keeps = λ key w j. refl;
        set_ok = λ key v w j bytes h. set_stored key v w j bytes h;
        set_frame = λ key v w j other.
            ap decoded (set_frame key v w (get_key_name k j) (name_eq key j ∙ other));
      },
      λ key w e h. error_missing key w h,
    )
