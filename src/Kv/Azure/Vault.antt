-- ===== src/Kv/Azure/Vault.antt =====
-- The documented behaviour of Azure Key Vault.
use unsealer.Prelude.{true, ◌≢◌, List, ◌∷◌, ◌++◌, All, ◌≡◌, false, Option, some, [], if◌then◌else◌}
use unsealer.Text.{Text, text_eq}
use unsealer.Effect.{ok}
use unsealer.Kv.Azure.Versions.{SecretItem, Versions, Latest, to_string}
use unsealer.Kv.Azure.Latest.{listed, is_complete, IsNewest}
use unsealer.Kv.Azure.Defs.{SecretSetParameters, KeyVaultClient}

-- Over a view of the current values of the secrets in the vault at `url`.
pub record KeyVaultContract {K : Type 0} (c : KeyVaultClient K) (url : Text)
    (current : K → Text → Option Text) : Type 0 where
  -- If no page is missing, a version that was created after all others is the current one.
  pub read_latest :
      (name : Text) (w : K) {p : Versions} {r : Latest} {d : Option Text}
      → (c.get_secret_versions url name 20 w).0 ≡ ok p
      → is_complete p ≡ true
      → IsNewest r (listed p)
      → (c.get_secret url name r.version (c.get_secret_versions url name 20 w).1).0 ≡ ok d
      → current w name ≡ some (to_string d)
  -- Without a version the current one is read.
  pub read_current :
      (name : Text) (w : K) {d : Option Text}
      → (c.get_secret url name [] w).0 ≡ ok d
      → current w name ≡ some (to_string d)
  pub versions_keeps :
      (name : Text) (w : K) (j : Text)
      → current (c.get_secret_versions url name 20 w).1 j ≡ current w j
  pub get_keeps :
      (name version : Text) (w : K) (j : Text)
      → current (c.get_secret url name version w).1 j ≡ current w j
  pub set_ok :
      (name : Text) (p : SecretSetParameters) (w : K) (j : Text)
      → (c.set_secret url name p w).0 ≡ ok tt
      → current (c.set_secret url name p w).1 j
        ≡ (if text_eq name j then some p.value else current w j)
  pub set_frame :
      (name : Text) (p : SecretSetParameters) (w : K) (j : Text)
      → text_eq name j ≡ false
      → current (c.set_secret url name p w).1 j ≡ current w j
  pub delete_frame :
      (name : Text) (w : K) (j : Text)
      → text_eq name j ≡ false
      → current (c.delete_secret url name w).1 j ≡ current w j

-- No two listed versions of a secret have the same creation time.
pub record DistinctTimes {K : Type 0} (c : KeyVaultClient K) (url : Text) : Type 0 where
  pub distinct :
      (name : Text) (w : K) {p : Versions}
      → (c.get_secret_versions url name 20 w).0 ≡ ok p
      → (before : List SecretItem) (item : SecretItem) (after : List SecretItem)
      → listed p ≡ before ++ (item ∷ after)
      → All (λ other. other.created ≢ item.created) (before ++ after)
