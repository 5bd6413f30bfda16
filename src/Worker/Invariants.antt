-- ===== src/Worker/Invariants.antt =====
-- What a predicate on the world needs for the loops of pkg/vault/unseal and pkg/worker to keep it.
use mathlib.Core.Path.{subst}
use unsealer.Prelude.{ℕ, zero, suc, ◌≡◌, ◌∙◌, sym, refl, Bool, true, false, Option, none, some}
use unsealer.Effect.{Result, ok, err}
use unsealer.Effect.Keeps.{Keeps}
use unsealer.Vault.World.{World}
use unsealer.Vault.Unseal.Defs.{Unsealer, unseal_round, unseal_from, unseal}
use unsealer.Vault.Unseal.Rounds.{
  round_end, unsealed, going_on, failed, unseal_from_unsealed, unseal_from_going_on,
  unseal_from_failed,
}
use unsealer.Worker.Options.{WorkerOptions}
use unsealer.Worker.Loop.{
  Phase, checking, configuring, State, check_vault, round, step, configure_once, unseal_if,
  after_unseal, map_option, step_in, checked,
}

module _ {K V : Type 0} (u : Unsealer K V) (o : WorkerOptions) where
  -- A step of the outer loop, with what it says of its round.
  pub step-round :
      (fuel : ℕ) (s t : State K V)
      → s.phase ≡ checking
      → step u o fuel s ≡ some t
      → (round u fuel s.world ≡ some (t.phase, t.world)) × (t.period ≡ o.retry_period)
  unfolding step
  step-round fuel s t phase h =
      in_round (round u fuel s.world) (subst (λ p. step_in u o p fuel s ≡ some t) phase h)
    where
      in_round :
          (r : Option (Phase × World K V))
          → map_option u (checked u o s) r ≡ some t
          → (r ≡ some (t.phase, t.world)) × (t.period ≡ o.retry_period)
      in_round none h = absurd (cc h)
      in_round (some (phase, w)) h = (cc h, cc h)

module _ {K V : Type 0} (u : Unsealer K V) (P : World K V → Type 0)
    (rounds : (i : ℕ) → Keeps P (unseal_round u i)) where
  pub unseal_from_keeps :
      (fuel i : ℕ) (w w' : World K V) (r : Result Unit)
      → unseal_from u fuel i w ≡ some (r, w')
      → P w
      → P w'
  unseal_from_keeps zero i w w' r h p = unfold unseal_from in absurd (cc h)
  unseal_from_keeps (suc fuel) i w w' r h p =
      let p' = (rounds i).at w p in
      elim (round_end (unseal_round u i w).0) [
        | unsealed e ↦
            let same : (unseal_round u i w).1 ≡ w' = cc (unseal_from_unsealed u fuel i w e, h) in
            rw (← same) p'
        | going_on e ↦
            unseal_from_keeps fuel (suc i) (unseal_round u i w).1 w' r
              (sym (unseal_from_going_on u fuel i w e) ∙ h) p'
        | failed f e ↦
            let same : (unseal_round u i w).1 ≡ w' = cc (unseal_from_failed u fuel i w e, h) in
            rw (← same) p'
      ]

  -- The rest of a round, from the world that its status checks leave.
  pub round_keeps_from :
      (fuel : ℕ) (w w' : World K V) (phase : Phase)
      → round u fuel w ≡ some (phase, w')
      → P (check_vault u w).1
      → P w'
  unfolding round unseal
  round_keeps_from fuel w w' phase h p = after (check_vault u w).0 (check_vault u w).1 h p
    where
      after_run :
          (o : Option (Result Unit × World K V))
          → ((r : Result Unit) (v : World K V) → o ≡ some (r, v) → P v)
          → map_option u (after_unseal u) o ≡ some (phase, w')
          → P w'
      after_run none run h = absurd (cc h)
      after_run (some (ok done, v)) run h =
          let same : v ≡ w' = cc h in rw (← same) (run (ok done) v refl)
      after_run (some (err e, v)) run h =
          let same : v ≡ w' = cc h in rw (← same) (run (err e) v refl)

      after :
          (r : Result Bool) (v : World K V) → unseal_if u fuel r v ≡ some (phase, w') → P v → P w'
      after (err e) v h p = let same : v ≡ w' = cc h in rw (← same) p
      after (ok false) v h p = let same : v ≡ w' = cc h in rw (← same) p
      after (ok true) v h p =
          after_run (unseal u fuel v) (λ r t at. unseal_from_keeps fuel 0 v t r at p) h

  module _ (checks : Keeps P (check_vault u)) where
    pub round_keeps :
        (fuel : ℕ) (w w' : World K V) (phase : Phase)
        → round u fuel w ≡ some (phase, w')
        → P w
        → P w'
    round_keeps fuel w w' phase h p = round_keeps_from fuel w w' phase h (checks.at w p)

    module _ (o : WorkerOptions) where
      pub step_keeps :
          Keeps P (configure_once u o)
          → (fuel : ℕ) (s t : State K V) → step u o fuel s ≡ some t
          → P s.world
          → P t.world
      unfolding step
      step_keeps configures fuel s t h p = in_phase s.phase h
        where
          after_round :
              (r : Option (Phase × World K V))
              → ((phase : Phase) (w : World K V) → r ≡ some (phase, w) → P w)
              → map_option u (checked u o s) r ≡ some t
              → P t.world
          after_round none run h = absurd (cc h)
          after_round (some (phase, w)) run h =
              let same : w ≡ t.world = cc h in rw (← same) (run phase w refl)

          in_phase : (phase : Phase) → step_in u o phase fuel s ≡ some t → P t.world
          in_phase checking h =
              after_round (round u fuel s.world)
                (λ phase w at. round_keeps fuel s.world w phase at p) h
          in_phase configuring h =
              let same : (configure_once u o s.world).1 ≡ t.world = cc h in
              rw (← same) (configures.at s.world p)
