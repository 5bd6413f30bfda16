-- ===== src/Vault/Unseal/Soundness.antt =====
-- `Unseal` against the documented protocol, whatever fails: what its result says of the vault.
use unsealer.Prelude.{ℕ, zero, suc, ◌≡◌, ◌∙◌, sym, Bool, true, false, not, some, arith, inl, inr}
use unsealer.Effect.{ok, Result-cases}
use unsealer.Vault.Keys.{unseal_key_id}
use unsealer.Vault.World.{World}
use unsealer.Vault.Contract.{VaultView, VaultContract}
use unsealer.Vault.Unseal.Defs.{Unsealer, unseal_round, unseal_from, unseal}
use unsealer.Vault.Unseal.Rounds.{
  round_end, unsealed, going_on, failed, unseal_from_unsealed, unseal_from_going_on,
  unseal_from_failed,
}

module _ {K V : Type 0} (u : Unsealer K V) (view : V → VaultView)
    (vault : VaultContract u.cl view) where
  pub round_sealed :
      (i : ℕ) (w : World K V) (b : Bool)
      → (view w.vault).sealed ≡ true
      → (unseal_round u i w).0 ≡ ok b
      → (view (unseal_round u i w).1.vault).sealed ≡ not b
  unfolding unseal_round
  round_sealed i w b sealed h =
      elim (Result-cases (u.key_store.get (unseal_key_id u.config.key_prefix i) w.store).0) [
        | inl (k, p) ↦ elim (Result-cases (u.cl.unseal k w.vault).0) [
          | inl (s, q) ↦ ground (arith, vault.unseal_ok k w.vault sealed q)
          | inr (e, q) ↦ ground arith
        ]
        | inr (e, p) ↦ ground arith
      ]

  unseal_from_sound :
      (fuel i : ℕ) (w w' : World K V)
      → (view w.vault).sealed ≡ true
      → unseal_from u fuel i w ≡ some (ok tt, w')
      → (view w'.vault).sealed ≡ false
  unseal_from_sound zero i w w' sealed h = unfold unseal_from in cc h
  unseal_from_sound (suc fuel) i w w' sealed h = elim (round_end (unseal_round u i w).0) [
    | unsealed p ↦
        let same : (unseal_round u i w).1 ≡ w' = cc (unseal_from_unsealed u fuel i w p, h) in
        rw (← same) (round_sealed i w true sealed p)
    | going_on p ↦
        unseal_from_sound fuel (suc i) (unseal_round u i w).1 w' (round_sealed i w false sealed p)
          (sym (unseal_from_going_on u fuel i w p) ∙ h)
    | failed e p ↦ absurd (cc (unseal_from_failed u fuel i w p, h))
  ]

  -- If `Unseal` returns without an error at a sealed vault, then the vault is unsealed, whatever
  -- the key store returned and however many rounds it took.
  pub unseal_sound :
      (fuel : ℕ) (w w' : World K V)
      → (view w.vault).sealed ≡ true
      → unseal u fuel w ≡ some (ok tt, w')
      → (view w'.vault).sealed ≡ false
  unfolding unseal
  unseal_sound fuel w w' sealed h = unseal_from_sound fuel 0 w w' sealed h
