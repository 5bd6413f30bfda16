-- ===== src/Kv/Azure/Reads.antt =====
-- Which value `Get` of pkg/kv/azure reads.
use unsealer.Prelude.{◌≡◌, ◌∙◌, ◌⊎◌, ap, Option, some, [], arith, inl, inr, Option-cases}
use unsealer.Text.{Text}
use unsealer.Effect.{ok, Result-cases}
use unsealer.Base64.{decode}
use unsealer.Kv.Azure.Versions.{Versions, Latest, no_version, to_string, scan_pages}
use unsealer.Kv.Azure.Latest.{listed, IsLatest, scan_pages_latest}
use unsealer.Kv.Azure.Defs.{AzureStore, get_key_name, get, get_secret, get_latest_version_of_secret}

module _ {K : Type 0} (k : AzureStore K) where
  -- If `Get` returns a value, then the versions of the prefixed name were listed, the value is what
  -- the text of the version that was read stands for in base64, and that version is a listed one
  -- which was created no earlier than any listed one (or the empty version, if none is listed).
  pub get_reads_latest :
      (key : Text) (w : K) {v : Text}
      → (get k key w).0 ≡ ok v
      → (p : Versions) × (r : Latest) × (text_read : Option Text)
        × ((k.key_client.get_secret_versions k.vault_base_url (get_key_name k key) 20 w).0 ≡ ok p)
        × (((listed p ≡ []) × (r ≡ no_version)) ⊎ IsLatest r (listed p))
        × ((k.key_client.get_secret k.vault_base_url
              (get_key_name k key)
              r.version
              (k.key_client.get_secret_versions k.vault_base_url (get_key_name k key) 20 w).1).0
            ≡ ok text_read)
        × (decode (to_string text_read) ≡ some v)
  unfolding get get_secret get_latest_version_of_secret
  get_reads_latest key w {v} h =
      let name = get_key_name k key in
      let w₁ = (k.key_client.get_secret_versions k.vault_base_url name 20 w).1 in
      elim (Result-cases (k.key_client.get_secret_versions k.vault_base_url name 20 w).0) [
        | inl (p, listing) ↦ elim (Result-cases (scan_pages no_version p)) [
          | inl (r, scanned) ↦
              elim (Result-cases (k.key_client.get_secret k.vault_base_url name r.version w₁).0) [
                | inl (text_read, read) ↦ elim (Option-cases (decode (to_string text_read))) [
                  | inl bad ↦ absurd (ground arith)
                  | inr (value, decodes) ↦ (
                    p,
                    r,
                    text_read,
                    listing,
                    scan_pages_latest p scanned,
                    read,
                    decodes ∙ ap some (ground arith),
                  )
                ]
                | inr (e, read) ↦ absurd (ground arith)
              ]
          | inr (e, scanned) ↦ absurd (ground arith)
        ]
        | inr (e, listing) ↦ absurd (ground arith)
      ]
