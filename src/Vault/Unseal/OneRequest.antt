-- ===== src/Vault/Unseal/OneRequest.antt =====
-- What `Init` of pkg/vault/unseal asks of the Vault server.
use unsealer.Prelude.{ℕ, suc, ◌≡◌, ◌⊎◌, inl, inr, refl, ap, true, List, [], ◌∷◌}
use unsealer.Text.{Text}
use unsealer.Effect.{Call, ◌>>=◌, ◌>>◌}
use unsealer.Effect.Keeps.{
  Keeps, Keeps-pure, Keeps-raise, Keeps-wrapping, Keeps-if, Keeps-bind, bind_keeps_at,
}
use unsealer.Vault.Keys.{unseal_key_id, root_token_id}
use unsealer.Vault.Client.{InitResponse}
use unsealer.Vault.World.{World}
use unsealer.Vault.Unseal.Defs.{
  Unsealer, init, init_request, init_vault, test_key_store, check_no_keys, check_absent,
  keys_to_test, key_store_not_found, may_set, key_store_set, store_unseal_keys, store_root_token,
  init_exists_error, set_exists_error,
}

module _ {K V : Type 0} (u : Unsealer K V) (v : V) where
  -- The Vault server is left as it was.
  abbrev At : World K V → Type 0
  At w = w.vault ≡ v

  Keeps-not_found : (key : Text) → Keeps At (key_store_not_found u key)
  unfolding key_store_not_found
  Keeps-not_found key = record { at = λ w h. h }

  Keeps-check_absent : (keys : List Text) → Keeps At (check_absent u keys)
  unfolding check_absent
  Keeps-check_absent [] = Keeps-pure tt
  Keeps-check_absent (key ∷ keys) =
      Keeps-bind (key_store_not_found u key) _ (Keeps-not_found key) λ missing.
        Keeps-if missing _ _ (Keeps-check_absent keys) (Keeps-raise (init_exists_error key))

  Keeps-check_no_keys : Keeps At (check_no_keys u)
  unfolding check_no_keys
  Keeps-check_no_keys =
      Keeps-if u.config.overwrite_existing _ _ (Keeps-pure tt)
        (Keeps-check_absent (keys_to_test u.config))

  Keeps-test_key_store : Keeps At (test_key_store u)
  unfolding test_key_store
  Keeps-test_key_store = record { at = λ w h. h }

  Keeps-may_set : (key : Text) → Keeps At (may_set u key)
  unfolding may_set
  Keeps-may_set key =
      Keeps-if u.config.overwrite_existing _ _ (Keeps-pure true) (Keeps-not_found key)

  Keeps-key_store_set : (key value : Text) → Keeps At (key_store_set u key value)
  unfolding key_store_set
  Keeps-key_store_set key value = Keeps-bind (may_set u key) _ (Keeps-may_set key) λ allowed.
      Keeps-if allowed _ _ (record { at = λ w h. h }) (Keeps-raise (set_exists_error key))

  Keeps-store_unseal_keys : (i : ℕ) (keys : List Text) → Keeps At (store_unseal_keys u i keys)
  unfolding store_unseal_keys
  Keeps-store_unseal_keys i [] = Keeps-pure tt
  Keeps-store_unseal_keys i (k ∷ keys) =
      Keeps-bind _ _
        (Keeps-wrapping _ _ (Keeps-key_store_set (unseal_key_id u.config.key_prefix i) k))
        λ stored. Keeps-store_unseal_keys (suc i) keys

  Keeps-store_root_token : (token : Text) → Keeps At (store_root_token u token)
  unfolding store_root_token
  Keeps-store_root_token token =
      Keeps-if u.config.store_root_token _ _
        (Keeps-wrapping _ _ (Keeps-key_store_set (root_token_id u.config.key_prefix) token))
        (Keeps-pure tt)

-- On every path, errors included, `Init` asks the Vault server for nothing or for one
-- initialization, and leaves it as that request does.
pub init_requests_once :
    {K V : Type 0} (u : Unsealer K V) (w : World K V)
    → ((init u w).1.vault ≡ w.vault)
      ⊎ ((init u w).1.vault ≡ (u.cl.init (init_request u.config) w.vault).1)
unfolding init
init_requests_once {K} {V} u w =
    let v₁ = (u.cl.init (init_request u.config) w.vault).1 in
    let P : World K V → Type 0 = λ r. (r.vault ≡ w.vault) ⊎ (r.vault ≡ v₁) in
    let w₁ = (test_key_store u w).1 in
    let at₁ : w₁.vault ≡ w.vault = (Keeps-test_key_store u w.vault).at w refl in
    let w₂ = (check_no_keys u w₁).1 in
    let at₂ : w₂.vault ≡ w.vault = (Keeps-check_no_keys u w.vault).at w₁ at₁ in
    let w₃ = (init_vault u w₂).1 in
    let at₃ : w₃.vault ≡ v₁ =
      unfold init_vault in ap (λ v. (u.cl.init (init_request u.config) v).1) at₂ in
    let rest₂ : InitResponse → Call (World K V) Unit =
      λ resp. store_unseal_keys u 0 resp.keys >> store_root_token u resp.root_token in
    let rest₁ : Call (World K V) Unit = init_vault u >>= rest₂ in
    bind_keeps_at P (test_key_store u) (λ _. check_no_keys u >> rest₁) w
      (λ tested _.
        bind_keeps_at P (check_no_keys u) (λ _. rest₁) w₁
          (λ absent _.
            bind_keeps_at P (init_vault u) rest₂ w₂
              (λ resp _. inr (
                (Keeps-bind (store_unseal_keys u 0 resp.keys) _
                    (Keeps-store_unseal_keys u v₁ 0 resp.keys)
                    λ stored. Keeps-store_root_token u v₁ resp.root_token).at
                  w₃ at₃))
              (inr at₃))
          (inl at₂))
      (inl at₁)
