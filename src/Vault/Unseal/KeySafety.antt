-- ===== src/Vault/Unseal/KeySafety.antt =====
-- What `keyStoreSet` and `Init` of pkg/vault/unseal do to the values that are stored already.
use unsealer.Prelude.{
  ℕ, suc, ◌≡◌, ◌∙◌, refl, ap, true, false, Option, some, List, [], ◌∷◌, arith, inl, inr, Bool-cases,
}
use unsealer.Text.{Text, text, text_eq, text_eq_iff}
use unsealer.Effect.{Error, err, Result-cases, raise, pure, wrapped}
use unsealer.Effect.Keeps.{Keeps, Keeps-pure, Keeps-raise, Keeps-wrapping, Keeps-if, Keeps-bind}
use unsealer.Kv.Contract.{KvContract}
use unsealer.Vault.Keys.{unseal_key_id, root_token_id, test_key}
use unsealer.Vault.World.{World}
use unsealer.Vault.Contract.{contains}
use unsealer.Vault.Unseal.Defs.{
  Unsealer, key_store_not_found, key_store_set, check_absent, check_no_keys, keys_to_test,
  store_unseal_keys, store_root_token, init_exists_error, test_key_store, init_vault, init,
  reports_missing,
}

module _ {K V : Type 0} (u : Unsealer K V) (holds : K → Text → Option Text)
    (store : KvContract u.key_store holds) where
  -- A value that the key store holds under `j`.
  abbrev Holding : Text → Text → World K V → Type 0
  Holding j v w = holds w.store j ≡ some v

  module _ (j v : Text) where
    key_store_not_found-Holding : (k : Text) → Keeps (Holding j v) (key_store_not_found u k)
    unfolding key_store_not_found
    key_store_not_found-Holding k = record { at = λ w h. store.get_keeps k w.store j ∙ h }

    check_absent-Holding : (keys : List Text) → Keeps (Holding j v) (check_absent u keys)
    unfolding check_absent
    check_absent-Holding [] = Keeps-pure tt
    check_absent-Holding (k ∷ keys) =
        Keeps-bind (key_store_not_found u k) _ (key_store_not_found-Holding k) λ missing.
          Keeps-if missing (check_absent u keys) (raise (init_exists_error k))
            (check_absent-Holding keys) (Keeps-raise (init_exists_error k))

    module _ (no_overwrite : u.config.overwrite_existing ≡ false) where
      key_store_set_at :
          (k value : Text) (w : World K V)
          → Holding j v w
          → Holding j v (key_store_set u k value w).1
      unfolding key_store_set
      key_store_set_at k value w h = elim (Result-cases (u.key_store.get k w.store).0) [
        | inl (old, p) ↦ ground (arith, store.get_keeps k w.store j)
        | inr (e, p) ↦ elim (Bool-cases (text_eq k j)) [
          | inl same ↦ ground (
            arith,
            store.get_keeps k w.store j,
            store.get_missing k w.store p,
            ap (holds w.store) ((text_eq_iff k j).0 same),
          )
          | inr other ↦ ground (
            arith,
            store.get_keeps k w.store j,
            store.set_frame k value (u.key_store.get k w.store).1 j other,
          )
        ]
      ]

      key_store_set-Holding : (k value : Text) → Keeps (Holding j v) (key_store_set u k value)
      key_store_set-Holding k value = record { at = key_store_set_at k value }

      store_unseal_keys-Holding :
          (i : ℕ) (keys : List Text) → Keeps (Holding j v) (store_unseal_keys u i keys)
      unfolding store_unseal_keys
      store_unseal_keys-Holding i [] = Keeps-pure tt
      store_unseal_keys-Holding i (k ∷ keys) =
          Keeps-bind _ _
            (Keeps-wrapping _ (key_store_set u (unseal_key_id u.config.key_prefix i) k)
              (key_store_set-Holding (unseal_key_id u.config.key_prefix i) k))
            λ done. store_unseal_keys-Holding (suc i) keys

      store_root_token-Holding : (token : Text) → Keeps (Holding j v) (store_root_token u token)
      unfolding store_root_token
      store_root_token-Holding token =
          Keeps-if u.config.store_root_token _ (pure tt)
            (Keeps-wrapping _ (key_store_set u (root_token_id u.config.key_prefix) token)
              (key_store_set-Holding (root_token_id u.config.key_prefix) token))
            (Keeps-pure tt)

      test_key_store-Holding : Keeps (Holding j v) (test_key_store u)
      unfolding test_key_store
      test_key_store-Holding = record { at = λ w h. store.test_keeps _ w.store j ∙ h }

      check_no_keys-Holding : Keeps (Holding j v) (check_no_keys u)
      unfolding check_no_keys
      check_no_keys-Holding =
          Keeps-if u.config.overwrite_existing (pure tt) _ (Keeps-pure tt)
            (check_absent-Holding (keys_to_test u.config))

      init_vault-Holding : Keeps (Holding j v) (init_vault u)
      unfolding init_vault
      init_vault-Holding = record { at = λ w h. h }

      -- Without `OverwriteExisting`, `Init` keeps every value that the key store holds, under every
      -- key, whether it succeeds or fails at any step.
      pub init_keeps_keys :
          (w : World K V) → holds w.store j ≡ some v → holds (init u w).1.store j ≡ some v
      unfolding init
      init_keeps_keys =
          (Keeps-bind (test_key_store u) _ test_key_store-Holding λ tested.
            Keeps-bind (check_no_keys u) _ check_no_keys-Holding λ absent.
              Keeps-bind (init_vault u) _ init_vault-Holding λ resp.
                Keeps-bind (store_unseal_keys u 0 resp.keys) _
                  (store_unseal_keys-Holding 0 resp.keys)
                  λ stored. store_root_token-Holding resp.root_token).at

  -- A key that is reported missing is not the one that is held, so that one comes later.
  later :
      (j : Text) (keys : List Text) (w : World K V) (k v : Text)
      → reports_missing (u.key_store.get j w.store).0 ≡ true
      → contains k (j ∷ keys) ≡ true
      → holds w.store k ≡ some v
      → contains k keys ≡ true
  later j keys w k v missing inside h = elim (Result-cases (u.key_store.get j w.store).0) [
    | inl (old, p) ↦ cc (missing, p)
    | inr (e, p) ↦ elim (Bool-cases (text_eq k j)) [
      | inl same ↦ absurd (
          cc (
            store.get_missing j w.store p (rw p at missing),
            ap (holds w.store) ((text_eq_iff k j).0 same),
            h,
          ))
      | inr other ↦ ground arith
    ]
  ]

  check_absent_fails :
      (keys : List Text) (w : World K V) (k v : Text)
      → contains k keys ≡ true
      → holds w.store k ≡ some v
      → (e : Error) × ((check_absent u keys w).0 ≡ err e)
  unfolding check_absent key_store_not_found
  check_absent_fails [] w k v inside h = absurd (cc inside)
  check_absent_fails (j ∷ keys) w k v inside h =
      let w' : World K V = record w { store = (u.key_store.get j w.store).1 } in
      elim (Bool-cases (reports_missing (u.key_store.get j w.store).0)) [
        | inl missing ↦
            let inside' : contains k keys ≡ true = later j keys w k v missing inside h in
            let (e, p) = check_absent_fails keys w' k v inside' (store.get_keeps j w.store k ∙ h) in
            (e, rw missing p)
        | inr present ↦ (init_exists_error j, rw present)
      ]

  pub check_absent_vault :
      (keys : List Text) (w : World K V) → (check_absent u keys w).1.vault ≡ w.vault
  unfolding check_absent key_store_not_found
  check_absent_vault [] w = refl
  check_absent_vault (j ∷ keys) w =
      ground (arith, check_absent_vault keys (record w { store = (u.key_store.get j w.store).1 }))

  -- Without `OverwriteExisting`, if the key store holds a value under one of the tested keys (the
  -- root token's, or an unseal key's of index at most the number of shares), then `Init` fails and
  -- the Vault server is not asked for anything.
  pub init_refuses :
      (k v : Text) (w : World K V)
      → u.config.overwrite_existing ≡ false
      → contains k (keys_to_test u.config) ≡ true
      → holds w.store k ≡ some v
      → ((e : Error) × ((init u w).0 ≡ err e)) × ((init u w).1.vault ≡ w.vault)
  unfolding init test_key_store check_no_keys
  init_refuses k v w no_overwrite tested h =
      let w' : World K V = record w {
        store = (u.key_store.test (test_key u.config.key_prefix) w.store).1;
      } in
      let kept : holds w'.store k ≡ some v =
        store.test_keeps (test_key u.config.key_prefix) w.store k ∙ h in
      let (e, absent_fails) = check_absent_fails (keys_to_test u.config) w' k v tested kept in
      elim (Result-cases (u.key_store.test (test_key u.config.key_prefix) w.store).0) [
        | inl (done, p) ↦
            ((e, ground arith), ground (arith, check_absent_vault (keys_to_test u.config) w'))
        | inr (f, p) ↦ (
          (wrapped (text "error testing keystore before init with ") f, ground arith),
          ground arith,
        )
      ]
