-- ===== src/Vault/Unseal/Same.antt =====
-- The calls of `Init` of pkg/vault/unseal before its request.
use unsealer.Prelude.{◌≡◌, ◌∙◌, Option, List, [], ◌∷◌}
use unsealer.Text.{Text}
use unsealer.Effect.{raise}
use unsealer.Effect.Keeps.{Keeps, Keeps-pure, Keeps-raise, Keeps-if, Keeps-bind}
use unsealer.Kv.Contract.{KvContract}
use unsealer.Vault.World.{World}
use unsealer.Vault.Unseal.Defs.{
  Unsealer, test_key_store, check_no_keys, check_absent, key_store_not_found, keys_to_test,
  init_exists_error,
}

module _ {K V : Type 0} (u : Unsealer K V) (holds : K → Text → Option Text)
    (store : KvContract u.key_store holds) (w : World K V) where
  -- The server is as it was, and so is what the key store holds.
  abbrev pub Same : World K V → Type 0
  Same r = (r.vault ≡ w.vault) × ((j : Text) → holds r.store j ≡ holds w.store j)

  Keeps-check_absent : (keys : List Text) → Keeps Same (check_absent u keys)
  unfolding check_absent key_store_not_found
  Keeps-check_absent [] = Keeps-pure tt
  Keeps-check_absent (k ∷ keys) =
      Keeps-bind (key_store_not_found u k) _
        (record { at = λ r h. (h.0, λ j. store.get_keeps k r.store j ∙ h.1 j) })
        λ missing.
          Keeps-if missing (check_absent u keys) (raise (init_exists_error k))
            (Keeps-check_absent keys) (Keeps-raise (init_exists_error k))

  pub Keeps-check_no_keys : Keeps Same (check_no_keys u)
  unfolding check_no_keys
  Keeps-check_no_keys =
      Keeps-if u.config.overwrite_existing _ _ (Keeps-pure tt)
        (Keeps-check_absent (keys_to_test u.config))

  pub Keeps-test_key_store : Keeps Same (test_key_store u)
  unfolding test_key_store
  Keeps-test_key_store = record { at = λ r h. (h.0, λ j. store.test_keeps _ r.store j ∙ h.1 j) }
