-- ===== src/Vault/Unseal/Writes.antt =====
-- The writes of `Init` of pkg/vault/unseal.
use native.Mathlib.Nat.{add-zero}
use mathlib.Core.Path.{subst}
use unsealer.Prelude.{
  ℕ, zero, suc, ◌+◌, ◌≡◌, ◌≢◌, ◌∙◌, refl, sym, ap, true, Option, some, List, [], ◌∷◌, arith, inl,
  inr, Bool-cases, if◌then◌else◌, get_elem?, All,
}
use unsealer.Text.{Text, IsBytes, text_eq, text_ne, text_eq_refl}
use unsealer.Effect.{ok, Result-cases}
use unsealer.Kv.Contract.{KvContract}
use unsealer.Vault.Keys.{unseal_key_id, root_token_id, unseal_key_id_injective}
use unsealer.Vault.World.{World}
use unsealer.Vault.Unseal.Defs.{
  Unsealer, key_store_set, store_unseal_keys, store_root_token, reports_missing,
}

module _ {K V : Type 0} (u : Unsealer K V) (holds : K → Text → Option Text)
    (store : KvContract u.key_store holds) where
  abbrev key : ℕ → Text
  key i = unseal_key_id u.config.key_prefix i

  abbrev root : Text
  root = root_token_id u.config.key_prefix

  pub key_store_set_vault : (k v : Text) (w : World K V) → (key_store_set u k v w).1.vault ≡ w.vault
  unfolding key_store_set
  key_store_set_vault k v w = ground arith

  pub key_store_set_ok :
      (k v : Text) (w : World K V) (j : Text)
      → IsBytes v
      → (key_store_set u k v w).0 ≡ ok tt
      → holds (key_store_set u k v w).1.store j ≡ (if text_eq k j then some v else holds w.store j)
  unfolding key_store_set
  key_store_set_ok k v w j bytes h = elim (Bool-cases u.config.overwrite_existing) [
    | inl over ↦ ground (arith, store.set_ok k v w.store j bytes)
    | inr keep ↦ elim (Bool-cases (reports_missing (u.key_store.get k w.store).0)) [
      | inl missing ↦ ground (
        arith,
        store.set_ok k v (u.key_store.get k w.store).1 j bytes,
        store.get_keeps k w.store j,
      )
      | inr present ↦ ground arith
    ]
  ]

  store_unseal_keys_cons :
      (i : ℕ) (k : Text) (keys : List Text) (w : World K V)
      → (store_unseal_keys u i (k ∷ keys) w).0 ≡ ok tt
      → ((key_store_set u (key i) k w).0 ≡ ok tt)
        × (store_unseal_keys u i (k ∷ keys) w
            ≡ store_unseal_keys u (suc i) keys (key_store_set u (key i) k w).1)
  unfolding store_unseal_keys
  store_unseal_keys_cons i k keys w h = elim (Result-cases (key_store_set u (key i) k w).0) [
    | inl (done, p) ↦ (p, ground arith)
    | inr (e, p) ↦ absurd (ground arith)
  ]

  store_unseal_keys_frame :
      (i : ℕ) (keys : List Text) (w : World K V) (j : Text)
      → ((n : ℕ) → key (i + n) ≢ j)
      → All IsBytes keys
      → (store_unseal_keys u i keys w).0 ≡ ok tt
      → holds (store_unseal_keys u i keys w).1.store j ≡ holds w.store j
  store_unseal_keys_frame i [] w j misses bytes h = unfold store_unseal_keys in refl
  store_unseal_keys_frame i (k ∷ keys) w j misses bytes h =
      let (done, step) = store_unseal_keys_cons i k keys w h in
      let first : key i ≢ j = subst (λ m. key m ≢ j) (add-zero i) (misses 0) in
      let rest : (n : ℕ) → key (suc i + n) ≢ j =
        λ n. subst (λ m. key m ≢ j) (omega arith) (misses (suc n)) in
      rw step (
        store_unseal_keys_frame (suc i) keys (key_store_set u (key i) k w).1 j rest bytes.1
          (ap (λ r. r.0) (sym step) ∙ h)
        ∙ key_store_set_ok (key i) k w j bytes.0 done
        ∙ rw (text_ne (key i) j first))

  pub store_unseal_keys_ok :
      (i : ℕ) (keys : List Text) (w : World K V) (n : ℕ) (k : Text)
      → All IsBytes keys
      → (store_unseal_keys u i keys w).0 ≡ ok tt
      → get_elem? keys n ≡ some k
      → holds (store_unseal_keys u i keys w).1.store (key (i + n)) ≡ some k
  store_unseal_keys_ok i [] w n k bytes h at = absurd (cc at)
  store_unseal_keys_ok i (l ∷ keys) w zero k bytes h at =
      let (done, step) = store_unseal_keys_cons i l keys w h in
      let later : (n : ℕ) → key (suc i + n) ≢ key i =
        λ n e. omega (arith, unseal_key_id_injective u.config.key_prefix (suc i + n) i e) in
      rw (add-zero i, step)
        (store_unseal_keys_frame (suc i) keys (key_store_set u (key i) l w).1 (key i) later bytes.1
            (ap (λ r. r.0) (sym step) ∙ h)
          ∙ key_store_set_ok (key i) l w (key i) bytes.0 done
          ∙ rw (text_eq_refl (key i)) at)
  store_unseal_keys_ok i (l ∷ keys) w (suc n) k bytes h at =
      let (done, step) = store_unseal_keys_cons i l keys w h in
      let shift : i + suc n ≡ suc i + n = omega arith in
      rw (shift, step)
        (store_unseal_keys_ok (suc i) keys (key_store_set u (key i) l w).1 n k bytes.1
          (ap (λ r. r.0) (sym step) ∙ h) at)

  pub store_unseal_keys_vault :
      (i : ℕ) (keys : List Text) (w : World K V) → (store_unseal_keys u i keys w).1.vault ≡ w.vault
  unfolding store_unseal_keys
  store_unseal_keys_vault i [] w = refl
  store_unseal_keys_vault i (k ∷ keys) w = ground (
    arith,
    key_store_set_vault (key i) k w,
    store_unseal_keys_vault (suc i) keys (key_store_set u (key i) k w).1,
  )

  pub store_root_token_vault :
      (token : Text) (w : World K V) → (store_root_token u token w).1.vault ≡ w.vault
  unfolding store_root_token
  store_root_token_vault token w = ground (arith, key_store_set_vault root token w)

  pub store_root_token_frame :
      (token : Text) (w : World K V) (j : Text)
      → root ≢ j
      → IsBytes token
      → (store_root_token u token w).0 ≡ ok tt
      → holds (store_root_token u token w).1.store j ≡ holds w.store j
  unfolding store_root_token
  store_root_token_frame token w j other bytes h =
      ground (arith, key_store_set_ok root token w j bytes, text_ne root j other)

  pub store_root_token_ok :
      (token : Text) (w : World K V)
      → u.config.store_root_token ≡ true
      → IsBytes token
      → (store_root_token u token w).0 ≡ ok tt
      → holds (store_root_token u token w).1.store root ≡ some token
  unfolding store_root_token
  store_root_token_ok token w stores bytes h =
      ground (arith, key_store_set_ok root token w root bytes, text_eq_refl root)
