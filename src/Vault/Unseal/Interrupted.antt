-- ===== src/Vault/Unseal/Interrupted.antt =====
-- What `Init` of pkg/vault/unseal leaves in the key store and at the server, wherever it ends.
use native.Mathlib.Nat.{add-zero}
use unsealer.Prelude.{
  ℕ, zero, suc, ◌+◌, ◌≤◌, ◌<◌, ◌≡◌, ◌∙◌, refl, false, Option, some, List, [], ◌∷◌, arith, inl, inr,
  Bool-cases, get_elem?, All, length,
}
use unsealer.Text.{Text, IsBytes, text_eq, text_ne, text_eq_refl}
use unsealer.Effect.{Error, ok, err, Result-cases}
use unsealer.Kv.Contract.{KvContract}
use unsealer.Vault.Keys.{unseal_key_id, unseal_key_id_injective}
use unsealer.Vault.World.{World}
use unsealer.Vault.Unseal.Defs.{Unsealer, key_store_set, store_unseal_keys, reports_missing}
use unsealer.Vault.Unseal.Writes.{key_store_set_ok}

module _ {K V : Type 0} (u : Unsealer K V) (holds : K → Text → Option Text)
    (store : KvContract u.key_store holds) where
  abbrev key : ℕ → Text
  key i = unseal_key_id u.config.key_prefix i

  -- Of the keys to store from index `i` on, the first `done` are stored; what has the next index may
  -- be the rest of a failed write, and all unseal keys else are as before.
  pub record Stored (keys : List Text) (i : ℕ) (before after : K) : Type 0 where
    pub done : ℕ
    pub within : done ≤ length keys
    pub stored :
        (n : ℕ) (k : Text)
        → n < done
        → get_elem? keys n ≡ some k
        → holds after (key (i + n)) ≡ some k
    pub above : (j : ℕ) → i + done < j → holds after (key j) ≡ holds before (key j)
    pub below : (j : ℕ) → j < i → holds after (key j) ≡ holds before (key j)

  key_ne : (i j : ℕ) → i < j → text_eq (key i) (key j) ≡ false
  key_ne i j less =
      text_ne (key i) (key j)
        (λ e. omega (arith, unseal_key_id_injective u.config.key_prefix i j e))

  key_ne_above : (i j : ℕ) → j < i → text_eq (key i) (key j) ≡ false
  key_ne_above i j less =
      text_ne (key i) (key j)
        (λ e. omega (arith, unseal_key_id_injective u.config.key_prefix i j e))

  pub key_store_set_frame :
      (k v : Text) (w : World K V) (j : Text)
      → text_eq k j ≡ false
      → holds (key_store_set u k v w).1.store j ≡ holds w.store j
  unfolding key_store_set
  key_store_set_frame k v w j other = elim (Bool-cases u.config.overwrite_existing) [
    | inl over ↦ ground (arith, store.set_frame k v w.store j other)
    | inr keep ↦ elim (Bool-cases (reports_missing (u.key_store.get k w.store).0)) [
      | inl missing ↦ ground (
        arith,
        store.set_frame k v (u.key_store.get k w.store).1 j other,
        store.get_keeps k w.store j,
      )
      | inr present ↦ ground (arith, store.get_keeps k w.store j)
    ]
  ]

  store_unseal_keys_goes_on :
      (i : ℕ) (k : Text) (keys : List Text) (w : World K V)
      → (key_store_set u (key i) k w).0 ≡ ok tt
      → (store_unseal_keys u i (k ∷ keys) w).1
        ≡ (store_unseal_keys u (suc i) keys (key_store_set u (key i) k w).1).1
  unfolding store_unseal_keys
  store_unseal_keys_goes_on i k keys w h = ground arith

  store_unseal_keys_stops :
      (i : ℕ) (k : Text) (keys : List Text) (w : World K V) {e : Error}
      → (key_store_set u (key i) k w).0 ≡ err e
      → (store_unseal_keys u i (k ∷ keys) w).1 ≡ (key_store_set u (key i) k w).1
  unfolding store_unseal_keys
  store_unseal_keys_stops i k keys w h = ground arith

  pub store_unseal_keys-Stored :
      (keys : List Text) (i : ℕ) (w : World K V)
      → All IsBytes keys
      → Stored keys i w.store (store_unseal_keys u i keys w).1.store
  store_unseal_keys-Stored [] i w bytes =
      unfold store_unseal_keys in
      record {
        done = 0;
        within = omega arith;
        stored = λ n k less at. absurd (omega arith);
        above = λ j less. refl;
        below = λ j less. refl;
      }
  store_unseal_keys-Stored (k ∷ keys) i w bytes =
      let w₁ = (key_store_set u (key i) k w).1 in
      elim (Result-cases (key_store_set u (key i) k w).0) [
        | inl (done, p) ↦ rw (store_unseal_keys_goes_on i k keys w p) (
            Stored-cons k keys i w bytes.0 p (store_unseal_keys u (suc i) keys w₁).1.store
              (store_unseal_keys-Stored keys (suc i) w₁ bytes.1))
        | inr (e, p) ↦ rw (store_unseal_keys_stops i k keys w p) (record {
          done = 0;
          within = omega arith;
          stored = λ n k less at. absurd (omega arith);
          above = λ j less. key_store_set_frame (key i) k w (key j) (key_ne i j (omega arith));
          below = λ j less. key_store_set_frame (key i) k w (key j) (key_ne_above i j less);
        })
      ]
    where
      Stored-cons :
          (k : Text) (keys : List Text) (i : ℕ) (w : World K V)
          → IsBytes k
          → (key_store_set u (key i) k w).0 ≡ ok tt
          → (after : K) → Stored keys (suc i) (key_store_set u (key i) k w).1.store after
          → Stored (k ∷ keys) i w.store after
      Stored-cons k keys i w bytes p after rest = record {
        done = suc rest.done;
        within = omega (arith, rest.within);
        stored = at_index;
        above = λ j less.
            rest.above j (omega arith)
            ∙ key_store_set_frame (key i) k w (key j) (key_ne i j (omega arith));
        below = λ j less.
            rest.below j (omega arith)
            ∙ key_store_set_frame (key i) k w (key j) (key_ne_above i j less);
      }
        where
          at_index :
              (n : ℕ) (l : Text)
              → n < suc rest.done
              → get_elem? (k ∷ keys) n ≡ some l
              → holds after (key (i + n)) ≡ some l
          at_index zero l less at = rw (add-zero i) (
              rest.below i (omega arith)
              ∙ key_store_set_ok u holds store (key i) k w (key i) bytes p
              ∙ rw (text_eq_refl (key i)) at)
          at_index (suc n) l less at =
              let shift : i + suc n ≡ suc i + n = omega arith in
              rw shift (rest.stored n l (omega arith) at)
