-- ===== src/Vault/Unseal/InitLeaves.antt =====
-- `Init` of pkg/vault/unseal as a whole, wherever it ends.
use unsealer.Prelude.{ℕ, ◌≡◌, ◌∙◌, ◌⊎◌, refl, ap, true, false, Option, List, [], inl, inr, arith}
use unsealer.Prelude.Int.{pos}
use unsealer.Text.{Text}
use unsealer.Effect.{ok, Call, Result-cases, wrap_result_ok, ◌>>=◌, ◌>>◌}
use unsealer.Effect.Keeps.{Keeps, Keeps-pure, Keeps-wrapping, Keeps-if, bind_keeps_at}
use unsealer.Kv.Contract.{KvContract}
use unsealer.Vault.Keys.{unseal_key_id, root_token_id, root_token_id-ne-unseal_key_id}
use unsealer.Vault.Client.{InitResponse}
use unsealer.Vault.World.{World}
use unsealer.Vault.Contract.{VaultView, VaultContract, VaultFailures}
use unsealer.Vault.Unseal.Defs.{
  Unsealer, store_unseal_keys, store_root_token, test_key_store, check_no_keys, key_store_set,
  init_vault, init, init_request,
}
use unsealer.Vault.Unseal.Writes.{store_unseal_keys_vault, key_store_set_vault}
use unsealer.Vault.Unseal.Interrupted.{Stored, store_unseal_keys-Stored, key_store_set_frame}
use unsealer.Text.{text_ne}
use unsealer.Vault.Unseal.Same.{Same, Keeps-test_key_store, Keeps-check_no_keys}

-- A vault that is initialized with these shares and has seen none of them.
abbrev pub sealed_with : ℕ → List Text → VaultView
sealed_with t keys = record {
  initialized = true;
  sealed = true;
  threshold = t;
  shares = keys;
  pending = [];
}

module _ {K V : Type 0} (u : Unsealer K V) (holds : K → Text → Option Text) (view : V → VaultView)
    (store : KvContract u.key_store holds) (vault : VaultContract u.cl view)
    (failures : VaultFailures u.cl view) (n t : ℕ) (w : World K V) where
  -- The server has been initialized, and some first shares are stored.
  abbrev pub Begun : World K V → Type 0
  Begun r =
      (keys : List Text) × (view r.vault ≡ sealed_with t keys)
      × Stored u holds store keys 0 w.store r.store

  abbrev pub Left : World K V → Type 0
  Left r = (view r.vault ≡ view w.vault) ⊎ Begun r

  -- The root token has another name than the unseal keys.
  Keeps-store_root_token : (token : Text) → Keeps Begun (store_root_token u token)
  unfolding store_root_token
  Keeps-store_root_token token =
      Keeps-if u.config.store_root_token _ _
        (Keeps-wrapping _ (key_store_set u (root_token_id u.config.key_prefix) token) (record {
          at = λ r begun.
              let p = u.config.key_prefix in
              let (keys, at_vault, stored) = begun in
              let frame = λ (j : ℕ).
                key_store_set_frame u holds store (root_token_id p) token r (unseal_key_id p j)
                  (text_ne _ _ (root_token_id-ne-unseal_key_id p j)) in
              (
                keys,
                ap view (key_store_set_vault u holds store _ token r) ∙ at_vault,
                record {
                  done = stored.done;
                  within = stored.within;
                  stored = λ m k less at. frame _ ∙ stored.stored m k less at;
                  above = λ j less. frame j ∙ stored.above j less;
                  below = λ j less. frame j ∙ stored.below j less;
                },
              );
        }))
        (Keeps-pure tt)

  -- Nothing is stored yet.
  Stored-none :
      (keys : List Text) (r : World K V)
      → Same u holds store w r
      → Stored u holds store keys 0 w.store r.store
  Stored-none keys r same = record {
    done = 0;
    within = omega arith;
    stored = λ m k less at. absurd (omega arith);
    above = λ j less. same.1 _;
    below = λ j less. same.1 _;
  }

  Stored-after :
      (keys : List Text) (before before' after : K)
      → ((j : Text) → holds before' j ≡ holds before j)
      → Stored u holds store keys 0 before' after
      → Stored u holds store keys 0 before after
  Stored-after keys before before' after same stored = record {
    done = stored.done;
    within = stored.within;
    stored = stored.stored;
    above = λ j less. stored.above j less ∙ same _;
    below = λ j less. stored.below j less ∙ same _;
  }

  module _ (shares : u.config.secret_shares ≡ pos n) (threshold : u.config.secret_threshold ≡ pos t)
      (fresh : (view w.vault).initialized ≡ false) where
    request : init_request u.config ≡ record { secret_shares = pos n; secret_threshold = pos t }
    request i = record { secret_shares = shares i; secret_threshold = threshold i }

    abbrev rest : InitResponse → Call (World K V) Unit
    rest resp = store_unseal_keys u 0 resp.keys >> store_root_token u resp.root_token

    asked_Left : (r : World K V) → Same u holds store w r → Left (init_vault u r).1
    unfolding init_vault
    asked_Left r same =
        let asked =
          u.cl.init (record { secret_shares = pos n; secret_threshold = pos t }) r.vault in
        let fresh' : (view r.vault).initialized ≡ false = rw same.0 fresh in
        let before : view r.vault ≡ view w.vault = ap view same.0 in
        elim (Result-cases asked.0) [
          | inl (resp, p) ↦ inr (
            resp.keys,
            rw request (vault.init_ok n t r.vault fresh' p).0,
            Stored-none resp.keys r same,
          )
          | inr (e, p) ↦ elim (failures.init_err n t r.vault fresh' p) [
            | inl kept ↦ inl (rw request (kept ∙ before))
            | inr (keys, now) ↦ inr (keys, rw request now, Stored-none keys r same)
          ]
        ]

    asks_Left : (r : World K V) → Same u holds store w r → Left ((init_vault u >>= rest) r).1
    unfolding init_vault
    asks_Left r same =
        let asked =
          u.cl.init (record { secret_shares = pos n; secret_threshold = pos t }) r.vault in
        let fresh' : (view r.vault).initialized ≡ false = rw (same.0) fresh in
        bind_keeps_at Left (init_vault u) rest r
          (λ resp p.
            let answered : asked.0 ≡ ok resp = rw request at (wrap_result_ok _ _ p) in
            let (now, count, new) = vault.init_ok n t r.vault fresh' answered in
            let (bytes, token) = vault.init_bytes _ r.vault answered in
            let r₁ = (init_vault u r).1 in
            let written = store_unseal_keys-Stored u holds store resp.keys 0 r₁ bytes in
            let r₂ = (store_unseal_keys u 0 resp.keys r₁).1 in
            let begun : Begun r₂ = (
              resp.keys,
              ap view (store_unseal_keys_vault u holds store 0 resp.keys r₁) ∙ rw request now,
              Stored-after resp.keys w.store r₁.store r₂.store same.1 written,
            ) in
            bind_keeps_at Left (store_unseal_keys u 0 resp.keys)
              (λ _. store_root_token u resp.root_token) r₁
              (λ done q. inr ((Keeps-store_root_token resp.root_token).at r₂ begun)) (inr begun))
          (asked_Left r same)

    -- Wherever `Init` ends at an uninitialized vault, the server is as it was, or is initialized and
    -- some first shares are stored.
    pub init_leaves : Left (init u w).1
    unfolding init
    init_leaves =
        let same₀ : Same u holds store w w = (refl, λ j. refl) in
        let w₁ = (test_key_store u w).1 in
        let same₁ = (Keeps-test_key_store u holds store w).at w same₀ in
        let w₂ = (check_no_keys u w₁).1 in
        let same₂ = (Keeps-check_no_keys u holds store w).at w₁ same₁ in
        bind_keeps_at Left (test_key_store u) (λ _. check_no_keys u >> (init_vault u >>= rest)) w
          (λ tested _.
            bind_keeps_at Left (check_no_keys u) (λ _. init_vault u >>= rest) w₁
              (λ absent _. asks_Left w₂ same₂) (inl (ap view same₂.0)))
          (inl (ap view same₁.0))
