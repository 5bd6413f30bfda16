-- ===== src/Vault/Unseal/InitSucceeds.antt =====
-- `Init` of pkg/vault/unseal at an empty key store and a new server, where all calls are answered.
use unsealer.Prelude.{
  ℕ, zero, suc, ◌≤◌, ◌<◌, ◌≡◌, ◌≢◌, ◌∙◌, sym, refl, true, false, Option, none, List, [], ◌∷◌, arith,
  inl, inr, Bool-cases, All,
}
use unsealer.Prelude.Int.{pos}
use unsealer.Text.{Text, IsBytes, text_ne}
use unsealer.Effect.{ok, Call, ◌>>=◌, ◌>>◌}
use unsealer.Effect.Succeeds.{bind_steps}
use unsealer.Kv.Contract.{KvContract, KvAvailable}
use unsealer.Vault.Keys.{
  unseal_key_id, root_token_id, test_key, unseal_key_id_injective, root_token_id-ne-unseal_key_id,
}
use unsealer.Vault.Client.{VaultClient, InitResponse}
use unsealer.Vault.World.{World}
use unsealer.Vault.Contract.{VaultView, VaultContract}
use unsealer.Vault.Unseal.Defs.{
  Unsealer, unseal_key_ids, store_unseal_keys, store_root_token, test_key_store, check_no_keys,
  check_absent, key_store_not_found, key_store_set, may_set, init_vault, init, init_request,
  keys_to_test, reports_missing, rounds_through,
}
use unsealer.Vault.Unseal.Same.{Same, Keeps-test_key_store, Keeps-check_no_keys}
use unsealer.Vault.Unseal.Interrupted.{key_store_set_frame}

-- A server that initializes a vault where it allows the numbers: there are at most 255 shares, and
-- more than one are needed.
pub record InitAvailable {V : Type 0} (c : VaultClient V) (view : V → VaultView) : Type 0 where
  pub init_answers :
      (n t : ℕ) (v : V)
      → (view v).initialized ≡ false
      → 1 < t
      → t ≤ n
      → n ≤ 255
      → (resp : InitResponse) × ((c.init
            (record { secret_shares = pos n; secret_threshold = pos t })
            v).0
          ≡ ok resp)

module _ {K V : Type 0} (u : Unsealer K V) (holds : K → Text → Option Text) (view : V → VaultView)
    (store : KvContract u.key_store holds) (store_up : KvAvailable u.key_store holds) where
  abbrev key : ℕ → Text
  key i = unseal_key_id u.config.key_prefix i

  abbrev root : Text
  root = root_token_id u.config.key_prefix

  -- None of the unsealer's keys from index `i` on is stored, nor is the root token.
  pub record Empty (i : ℕ) (w : K) : Type 0 where
    pub no_key : (j : ℕ) → i ≤ j → holds w (key j) ≡ none
    pub no_token : holds w root ≡ none

  Empty-same : (i : ℕ) (w w' : K) → ((j : Text) → holds w' j ≡ holds w j) → Empty i w → Empty i w'
  Empty-same i w w' same empty = record {
    no_key = λ j le. same (key j) ∙ empty.no_key j le;
    no_token = same root ∙ empty.no_token;
  }

  reports_missing-true :
      (k : Text) (w : World K V)
      → holds w.store k ≡ none
      → reports_missing (u.key_store.get k w.store).0 ≡ true
  reports_missing-true k w absent =
      let (e, missing, is) = store_up.get_absent k w.store absent in rw (missing, is) refl

  -- The key store holds what it held at `x`, also while its keys are tested.
  check_absent_ok :
      (keys : List Text) (w : World K V) (x : K)
      → ((j : Text) → holds w.store j ≡ holds x j)
      → All (λ k. holds x k ≡ none) keys
      → (check_absent u keys w).0 ≡ ok tt
  unfolding check_absent key_store_not_found
  check_absent_ok [] w x same absent = refl
  check_absent_ok (k ∷ keys) w x same absent =
      let w₁ : World K V = record w { store = (u.key_store.get k w.store).1 } in
      rw (reports_missing-true k w (same k ∙ absent.0))
        (check_absent_ok keys w₁ x (λ j. store.get_keeps k w.store j ∙ same j) absent.1)

  key_store_set_succeeds :
      (k v : Text) (w : World K V)
      → IsBytes v
      → holds w.store k ≡ none
      → (key_store_set u k v w).0 ≡ ok tt
  unfolding key_store_set may_set key_store_not_found
  key_store_set_succeeds k v w bytes absent = elim (Bool-cases u.config.overwrite_existing) [
    | inl over ↦ ground (arith, store_up.set_succeeds k v w.store bytes)
    | inr keep ↦ ground (
      arith,
      reports_missing-true k w absent,
      store_up.set_succeeds k v (u.key_store.get k w.store).1 bytes,
    )
  ]

  All-unseal_key_ids :
      (n i : ℕ) (w : K)
      → Empty 0 w
      → All (λ k. holds w k ≡ none) (unseal_key_ids u.config.key_prefix i n)
  unfolding unseal_key_ids
  All-unseal_key_ids zero i w empty = tt
  All-unseal_key_ids (suc n) i w empty =
      (empty.no_key i (omega arith), All-unseal_key_ids n (suc i) w empty)

  store_unseal_keys_succeeds :
      (keys : List Text) (i : ℕ) (w : World K V)
      → All IsBytes keys
      → Empty i w.store
      → ((store_unseal_keys u i keys w).0 ≡ ok tt)
        × (holds (store_unseal_keys u i keys w).1.store root ≡ none)
  unfolding store_unseal_keys
  store_unseal_keys_succeeds [] i w bytes empty = (refl, empty.no_token)
  store_unseal_keys_succeeds (k ∷ keys) i w bytes empty =
      let w₁ = (key_store_set u (key i) k w).1 in
      let done = key_store_set_succeeds (key i) k w bytes.0 (empty.no_key i (omega arith)) in
      let frame = λ (j : Text) (other : key i ≢ j).
        key_store_set_frame u holds store (key i) k w j (text_ne (key i) j other) in
      let rest : Empty (suc i) w₁.store = record {
        no_key = λ j le.
            frame (key j) (λ e. omega (arith, unseal_key_id_injective u.config.key_prefix i j e))
            ∙ empty.no_key j (omega arith);
        no_token =
            frame root (λ e. root_token_id-ne-unseal_key_id u.config.key_prefix i (sym e))
            ∙ empty.no_token;
      } in
      let (returns, no_token) = store_unseal_keys_succeeds keys (suc i) w₁ bytes.1 rest in
      let goes_on : store_unseal_keys u i (k ∷ keys) w ≡ store_unseal_keys u (suc i) keys w₁ =
        ground (arith, done) in
      rw goes_on (returns, no_token)

  store_root_token_succeeds :
      (token : Text) (w : World K V)
      → IsBytes token
      → holds w.store root ≡ none
      → (store_root_token u token w).0 ≡ ok tt
  unfolding store_root_token
  store_root_token_succeeds token w bytes absent =
      ground (arith, key_store_set_succeeds root token w bytes absent)

  check_no_keys_ok :
      (w : World K V) (x : K)
      → ((j : Text) → holds w.store j ≡ holds x j)
      → Empty 0 x
      → (check_no_keys u w).0 ≡ ok tt
  unfolding check_no_keys keys_to_test
  check_no_keys_ok w x same empty =
      let n = rounds_through u.config.secret_shares in
      let absent =
        check_absent_ok (keys_to_test u.config) w x same
          (empty.no_token, All-unseal_key_ids n 0 x empty) in
      elim (Bool-cases u.config.overwrite_existing) [
        | inl over ↦ ground arith
        | inr keep ↦ ground (arith, absent)
      ]

  module _ (vault : VaultContract u.cl view) (up : InitAvailable u.cl view) where
    abbrev stores : InitResponse → Call (World K V) Unit
    stores resp = store_unseal_keys u 0 resp.keys >> store_root_token u resp.root_token

    -- At an uninitialized vault, with none of the unsealer's keys in the store.
    pub init_succeeds :
        (n t : ℕ) (w : World K V)
        → u.config.secret_shares ≡ pos n
        → u.config.secret_threshold ≡ pos t
        → 1 < t
        → t ≤ n
        → n ≤ 255
        → (view w.vault).initialized ≡ false
        → Empty 0 w.store
        → (init u w).0 ≡ ok tt
    unfolding init test_key_store check_no_keys init_vault
    init_succeeds n t w shares threshold several fits allowed fresh empty =
        let same₀ : Same u holds store w w = (refl, λ j. refl) in
        let asks : Call (World K V) Unit = init_vault u >>= stores in
        let w₁ = (test_key_store u w).1 in
        let same₁ = (Keeps-test_key_store u holds store w).at w same₀ in
        let tested : (test_key_store u w).0 ≡ ok tt =
          rw (store_up.test_succeeds (test_key u.config.key_prefix) w.store) refl in
        let w₂ = (check_no_keys u w₁).1 in
        let same₂ = (Keeps-check_no_keys u holds store w).at w₁ same₁ in
        let absent = check_no_keys_ok w₁ w.store same₁.1 empty in
        let (resp, answered) = up.init_answers n t w.vault fresh several fits allowed in
        let request : init_request u.config
            ≡ record { secret_shares = pos n; secret_threshold = pos t } =
          λ i. record { secret_shares = shares i; secret_threshold = threshold i } in
        let asked : (init_vault u w₂).0 ≡ ok resp = rw (request, same₂.0, answered) refl in
        let (bytes, token) = vault.init_bytes _ w.vault answered in
        let w₃ = (init_vault u w₂).1 in
        let (stored, no_token) =
          store_unseal_keys_succeeds resp.keys 0 w₃ bytes
            (Empty-same 0 w.store w₃.store same₂.1 empty) in
        let w₄ = (store_unseal_keys u 0 resp.keys w₃).1 in
        let run : init u w ≡ store_root_token u resp.root_token w₄ =
          bind_steps (test_key_store u) (λ _. check_no_keys u >> asks) w tested
          ∙ bind_steps (check_no_keys u) (λ _. asks) w₁ absent
          ∙ bind_steps (init_vault u) stores w₂ asked
          ∙ bind_steps (store_unseal_keys u 0 resp.keys) (λ _. store_root_token u resp.root_token)
              w₃ stored in
        rw run (store_root_token_succeeds resp.root_token w₄ token no_token)
