-- ===== src/Vault/Unseal/InitStores.antt =====
-- What `Init` of pkg/vault/unseal has done when it returns without an error.
use native.Mathlib.Nat.{zero-add}
use mathlib.Core.Path.{subst}
use unsealer.Prelude.{ℕ, ◌≡◌, ◌∙◌, sym, ap, true, Option, some, arith, get_elem?, All}
use unsealer.Text.{Text, IsBytes}
use unsealer.Effect.{ok, Call, bind_ok, wrap_result_ok, ◌>>=◌, ◌>>◌}
use unsealer.Kv.Contract.{KvContract}
use unsealer.Vault.Keys.{unseal_key_id, root_token_id, root_token_id-ne-unseal_key_id}
use unsealer.Vault.Client.{InitResponse}
use unsealer.Vault.World.{World}
use unsealer.Vault.Unseal.Defs.{
  Unsealer, store_unseal_keys, store_root_token, test_key_store, check_no_keys, init_vault, init,
  init_request, keys_to_test,
}
use unsealer.Vault.Unseal.KeySafety.{check_absent_vault}
use unsealer.Vault.Unseal.Writes.{
  store_root_token_vault, store_unseal_keys_vault, store_root_token_frame, store_unseal_keys_ok,
  store_root_token_ok,
}

module _ {K V : Type 0} (u : Unsealer K V) (holds : K → Text → Option Text)
    (store : KvContract u.key_store holds) where
  abbrev key : ℕ → Text
  key i = unseal_key_id u.config.key_prefix i

  pub check_no_keys_vault : (w : World K V) → (check_no_keys u w).1.vault ≡ w.vault
  unfolding check_no_keys
  check_no_keys_vault w = ground (arith, check_absent_vault u holds store (keys_to_test u.config) w)

  init_vault_answer :
      (w' w : World K V) (resp : InitResponse)
      → w'.vault ≡ w.vault
      → (init_vault u w').0 ≡ ok resp
      → (u.cl.init (init_request u.config) w.vault).0 ≡ ok resp
  unfolding init_vault
  init_vault_answer w' w resp e h = rw (← e) (wrap_result_ok _ _ h)

  init_vault_state :
      (w' w : World K V)
      → w'.vault ≡ w.vault
      → (init_vault u w').1.vault ≡ (u.cl.init (init_request u.config) w.vault).1
  unfolding init_vault
  init_vault_state w' w e = ap (λ v. (u.cl.init (init_request u.config) v).1) e

  -- `Init` is its request to the server, then the writes, if it returns without an error.
  init_inversion :
      (w : World K V)
      → (init u w).0 ≡ ok tt
      → (resp : InitResponse) × (w' : World K V) × ((u.cl.init (init_request u.config) w.vault).0
          ≡ ok resp)
        × (w'.vault ≡ (u.cl.init (init_request u.config) w.vault).1)
        × ((store_unseal_keys u 0 resp.keys w').0 ≡ ok tt)
        × (init u w ≡ store_root_token u resp.root_token (store_unseal_keys u 0 resp.keys w').1)
  unfolding init test_key_store
  init_inversion w h =
      let stores : InitResponse → Call (World K V) Unit =
        λ resp. store_unseal_keys u 0 resp.keys >> store_root_token u resp.root_token in
      let asks : Call (World K V) Unit = init_vault u >>= stores in
      let checks : Call (World K V) Unit = check_no_keys u >> asks in
      let (tested, p, e) = bind_ok (test_key_store u) (λ _. checks) w h in
      let w₁ = (test_key_store u w).1 in
      let (absent, p₂, e₂) = bind_ok (check_no_keys u) (λ _. asks) w₁ (ap (λ r. r.0) (sym e) ∙ h) in
      let w₂ = (check_no_keys u w₁).1 in
      let (resp, p₃, e₃) = bind_ok (init_vault u) stores w₂ (ap (λ r. r.0) (sym (e ∙ e₂)) ∙ h) in
      let w₃ = (init_vault u w₂).1 in
      let (stored, p₄, e₄) =
        bind_ok (store_unseal_keys u 0 resp.keys) (λ _. store_root_token u resp.root_token) w₃
          (ap (λ r. r.0) (sym (e ∙ e₂ ∙ e₃)) ∙ h) in
      let untouched : w₂.vault ≡ w.vault = check_no_keys_vault w₁ in
      (
        resp,
        w₃,
        init_vault_answer w₂ w resp untouched p₃,
        init_vault_state w₂ w untouched,
        p₄,
        e ∙ e₂ ∙ e₃ ∙ e₄,
      )

  -- If `Init` returns without an error, and what the server sends are bytes, then the Vault server
  -- has answered its request with some keys and a root token and has done nothing else, key number
  -- `n` stands in the key store as the unseal key of index `n`, and so does the root token under its
  -- name if `StoreRootToken` is set.
  pub init_stores :
      (w : World K V)
      → ((resp : InitResponse)
          → (u.cl.init (init_request u.config) w.vault).0 ≡ ok resp
          → All IsBytes resp.keys × IsBytes resp.root_token)
      → (init u w).0 ≡ ok tt
      → (resp : InitResponse) × ((u.cl.init (init_request u.config) w.vault).0 ≡ ok resp)
        × ((init u w).1.vault ≡ (u.cl.init (init_request u.config) w.vault).1)
        × ((n : ℕ) (k : Text)
            → get_elem? resp.keys n ≡ some k
            → holds (init u w).1.store (unseal_key_id u.config.key_prefix n) ≡ some k)
        × (u.config.store_root_token ≡ true
            → holds (init u w).1.store (root_token_id u.config.key_prefix) ≡ some resp.root_token)
  init_stores w in_bytes h =
      let (resp, w', answered, at_vault, stored, run) = init_inversion w h in
      let bytes = in_bytes resp answered in
      let w'' = (store_unseal_keys u 0 resp.keys w').1 in
      let root_done : (store_root_token u resp.root_token w'').0 ≡ ok tt =
        ap (λ r. r.0) (sym run) ∙ h in
      (
        resp,
        answered,
        rw run (
            store_root_token_vault u holds store resp.root_token w''
            ∙ store_unseal_keys_vault u holds store 0 resp.keys w'
            ∙ at_vault),
        λ n k at. rw run (
            store_root_token_frame u holds store resp.root_token w'' (key n)
              (root_token_id-ne-unseal_key_id u.config.key_prefix n) bytes.1 root_done
            ∙ subst (λ m. holds w''.store (key m) ≡ some k) (zero-add n)
                (store_unseal_keys_ok u holds store 0 resp.keys w' n k bytes.0 stored at)),
        λ stores.
            rw run (store_root_token_ok u holds store resp.root_token w'' stores bytes.1 root_done),
      )
