-- ===== src/Vault/Unseal/Rounds.antt =====
-- The loop of `Unseal` by its rounds: one equation for each way that a round can end.
use unsealer.Prelude.{ℕ, suc, ◌≡◌, refl, Bool, true, false, some, inl, inr, arith}
use unsealer.Text.{Text}
use unsealer.Effect.{Error, Result, ok, err, Result-cases}
use unsealer.Vault.Keys.{unseal_key_id}
use unsealer.Vault.World.{World}
use unsealer.Vault.Unseal.Defs.{Unsealer, unseal_round, unseal_from}

pub data RoundEnd (r : Result Bool) : Type 0 where
  unsealed : r ≡ ok true → RoundEnd r
  going_on : r ≡ ok false → RoundEnd r
  failed : (e : Error) → r ≡ err e → RoundEnd r

pub round_end : (r : Result Bool) → RoundEnd r
round_end (ok true) = unsealed refl
round_end (ok false) = going_on refl
round_end (err e) = failed e refl

module _ {K V : Type 0} (u : Unsealer K V) (fuel i : ℕ) (w : World K V) where
  pub unseal_from_unsealed :
      (unseal_round u i w).0 ≡ ok true
      → unseal_from u (suc fuel) i w ≡ some (ok tt, (unseal_round u i w).1)
  unfolding unseal_from
  unseal_from_unsealed h = rw (h, unseal_from)

  pub unseal_from_going_on :
      (unseal_round u i w).0 ≡ ok false
      → unseal_from u (suc fuel) i w ≡ unseal_from u fuel (suc i) (unseal_round u i w).1
  unfolding unseal_from
  unseal_from_going_on h = rw (h, unseal_from)

  pub unseal_from_failed :
      {e : Error}
      → (unseal_round u i w).0 ≡ err e
      → unseal_from u (suc fuel) i w ≡ some (err e, (unseal_round u i w).1)
  unfolding unseal_from
  unseal_from_failed h = rw (h, unseal_from)

-- What a round leaves, whatever the server answers to its request.
module _ {K V : Type 0} (u : Unsealer K V) (i : ℕ) (w : World K V) where
  abbrev got : Result Text × K
  got = u.key_store.get (unseal_key_id u.config.key_prefix i) w.store

  pub round_got :
      {k : Text}
      → got.0 ≡ ok k
      → (unseal_round u i w).1 ≡ record { store = got.1; vault = (u.cl.unseal k w.vault).1 }
  unfolding unseal_round
  round_got {k} h = elim (Result-cases (u.cl.unseal k w.vault).0) [
    | inl (s, p) ↦ ground arith
    | inr (e, p) ↦ ground arith
  ]

  pub round_missed :
      {e : Error} → got.0 ≡ err e → (unseal_round u i w).1 ≡ record w { store = got.1 }
  unfolding unseal_round
  round_missed h = ground arith
