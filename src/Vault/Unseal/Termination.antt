-- ===== src/Vault/Unseal/Termination.antt =====
-- The end of the loop of `Unseal` of pkg/vault/unseal.
use unsealer.Prelude.{ℕ, zero, suc, ◌+◌, ◌≡◌, ◌∙◌, Option, none, some, inl, inr, arith}
use unsealer.Text.{Text}
use unsealer.Effect.{Error, Result, ok, err, Result-cases}
use unsealer.Kv.Contract.{KvContract}
use unsealer.Vault.Keys.{unseal_key_id}
use unsealer.Vault.World.{World}
use unsealer.Vault.Unseal.Defs.{Unsealer, unseal_round, unseal_from, unseal}
use unsealer.Vault.Unseal.Rounds.{
  round_end, unsealed, going_on, failed, unseal_from_unsealed, unseal_from_going_on,
  unseal_from_failed,
}
use mathlib.Core.Path.{subst}
use native.Mathlib.Nat.{add-zero, zero-add}
use unsealer.Effect.{wrapped}
use unsealer.Text.{text}
use unsealer.Prelude.{◌++◌}

module _ {K V : Type 0} (u : Unsealer K V) (holds : K → Text → Option Text)
    (store : KvContract u.key_store holds) where
  abbrev key : ℕ → Text
  key i = unseal_key_id u.config.key_prefix i

  pub round_keeps :
      (i : ℕ) (w : World K V) (j : Text) → holds (unseal_round u i w).1.store j ≡ holds w.store j
  unfolding unseal_round
  round_keeps i w j = ground (arith, store.get_keeps (key i) w.store j)

  round_missing :
      (i : ℕ) (w : World K V)
      → holds w.store (key i) ≡ none
      → (e : Error) × ((unseal_round u i w).0 ≡ err e)
  unfolding unseal_round
  round_missing i w h = elim (Result-cases (u.key_store.get (key i) w.store).0) [
    | inl (v, e) ↦ absurd (cc (store.get_ok (key i) w.store e, h))
    | inr (e, p) ↦
        (wrapped (text "failed to get key = " ++ (key i ++ text " with ")) e, ground arith)
  ]

  shifted :
      (i fuel : ℕ) (w : World K V)
      → holds w.store (key (i + suc fuel)) ≡ none
      → holds w.store (key (suc i + fuel)) ≡ none
  shifted i fuel w h = subst (λ n. holds w.store (key n) ≡ none) (omega arith) h

  unseal_from_total :
      (fuel i : ℕ) (w : World K V)
      → holds w.store (key (i + fuel)) ≡ none
      → (r : Result Unit × World K V) × (unseal_from u (suc fuel) i w ≡ some r)
  unseal_from_total zero i w h =
      let (e, p) = round_missing i w (rw add-zero at h) in
      ((err e, (unseal_round u i w).1), unseal_from_failed u 0 i w p)
  unseal_from_total (suc fuel) i w h = elim (round_end (unseal_round u i w).0) [
    | unsealed p ↦ ((ok tt, (unseal_round u i w).1), unseal_from_unsealed u (suc fuel) i w p)
    | going_on p ↦
        let w' = (unseal_round u i w).1 in
        let missing : holds w'.store (key (suc i + fuel)) ≡ none =
          rw (round_keeps i w (key (suc i + fuel))) (shifted i fuel w h) in
        let (r, q) = unseal_from_total fuel (suc i) w' missing in
        (r, unseal_from_going_on u (suc fuel) i w p ∙ q)
    | failed e p ↦ ((err e, (unseal_round u i w).1), unseal_from_failed u (suc fuel) i w p)
  ]

  -- If the key store does not hold the unseal key of index `n`, then `Unseal` returns after at
  -- most `n + 1` rounds, whatever the Vault server answers.
  pub unseal_total :
      (n : ℕ) (w : World K V)
      → holds w.store (key n) ≡ none
      → (r : Result Unit × World K V) × (unseal u (suc n) w ≡ some r)
  unfolding unseal
  unseal_total n w h = unseal_from_total n 0 w (rw zero-add h)
