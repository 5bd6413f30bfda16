-- ===== src/Worker/Refines.antt =====
-- The loop of pkg/worker as a refinement of its lifecycle.
use mathlib.Core.Path.{subst}
use unsealer.Prelude.{
  ℕ, ◌≡◌, sym, ap, refl, Bool, true, false, Option, none, some, inl, inr, Bool-cases,
}
use unsealer.Prelude.Int.{pos}
use unsealer.Text.{Text}
use unsealer.Effect.{Result, ok, err, Result-cases}
use unsealer.Kv.Contract.{KvContract}
use unsealer.Vault.Keys.{root_token_id}
use unsealer.Vault.World.{World}
use unsealer.Vault.Contract.{VaultView, VaultContract, VaultFailures}
use unsealer.Vault.Unseal.Defs.{Unsealer, unseal}
use unsealer.Vault.Unseal.Soundness.{unseal_sound}
use unsealer.Worker.Unsealed.{check_vault_true}
use unsealer.Worker.Options.{WorkerOptions}
use unsealer.Worker.Loop.{
  Phase, checking, configuring, State, check_vault, round, step, unseal_if, after_unseal,
  map_option,
}
use unsealer.Worker.Lifecycle.{
  Stage, closed, opened, stage_of, Grew, Moves, checks, unseen, unseals, repeats, configures, Runs,
  rest, move,
}
use unsealer.Worker.Stages.{
  check_vault_grows, check_vault_done, unseal_from_initialized, stage-closed, stage-opened,
}
use unsealer.Worker.Administers.{Administers, Keeps-configure_vault}
use unsealer.Worker.Invariants.{step-round}
use unsealer.Worker.Lifecycle.{Settled, Runs-Settled, Runs-opened}
use unsealer.Worker.Steps.{Steps, stay, next}
use unsealer.Worker.Loop.{configured, configure_once, step_in}

module _ {K V : Type 0} (u : Unsealer K V) (holds : K → Text → Option Text) (view : V → VaultView)
    (store : KvContract u.key_store holds) (vault : VaultContract u.cl view)
    (failures : VaultFailures u.cl view) (n t : ℕ) (shares : u.config.secret_shares ≡ pos n)
    (threshold : u.config.secret_threshold ≡ pos t) where
  abbrev stage : World K V → Stage
  stage w = stage_of (view w.vault)

  round-Moves :
      (fuel : ℕ) (w w' : World K V) (phase : Phase)
      → round u fuel w ≡ some (phase, w')
      → Moves checking (stage w) phase (stage w')
  unfolding round unseal
  round-Moves fuel w w' phase h =
      after (check_vault u w).0 (check_vault u w).1 (check_vault_true u view vault w true)
        (check_vault_done u holds view store vault failures n t shares threshold w {b = true})
        (check_vault_grows u holds view store vault failures n t shares threshold w) h
    where
      after_run :
          (v : World K V)
          → Grew (stage w) closed
          → (view v.vault).sealed ≡ true
          → (view v.vault).initialized ≡ true
          → (o : Option (Result Unit × World K V)) → unseal u fuel v ≡ o
          → map_option u (after_unseal u) o ≡ some (phase, w')
          → Moves checking (stage w) phase (stage w')
      after_run v grown sealed ready none run h = absurd (cc h)
      after_run v grown sealed ready (some (ok done, x)) run h =
          let on : configuring ≡ phase = cc h in
          let here : x ≡ w' = cc h in
          let end =
            stage-opened u holds view store vault failures n t shares threshold (view x.vault)
              (unseal_from_initialized u holds view store vault failures n t shares threshold fuel 0
                v x (ok done) sealed ready run)
              (unseal_sound u view vault fuel v x sealed run) in
          rw (← on, ← here, end) (unseals (stage w) grown)
      after_run v grown sealed ready (some (err e, x)) run h =
          let on : checking ≡ phase = cc h in
          let here : x ≡ w' = cc h in
          let ready' =
            unseal_from_initialized u holds view store vault failures n t shares threshold fuel 0 v
              x (err e) sealed ready run in
          rw (← on, ← here)
            (elim (Bool-cases (view x.vault).sealed) [
              | inl shut ↦
                  rw
                    (stage-closed u holds view store vault failures n t shares threshold
                      (view x.vault) ready' shut)
                    (checks (stage w) closed grown)
              | inr open_now ↦
                  rw
                    (stage-opened u holds view store vault failures n t shares threshold
                      (view x.vault) ready' open_now)
                    (unseen (stage w) grown)
            ])

      after :
          (r : Result Bool) (v : World K V)
          → (r ≡ ok true → (view v.vault).sealed ≡ true)
          → (r ≡ ok true → (view v.vault).initialized ≡ true)
          → Grew (stage w) (stage v)
          → unseal_if u fuel r v ≡ some (phase, w')
          → Moves checking (stage w) phase (stage w')
      after (err e) v sealed ready grown h =
          let on : checking ≡ phase = cc h in
          let here : v ≡ w' = cc h in rw (← on, ← here) (checks (stage w) (stage v) grown)
      after (ok false) v sealed ready grown h =
          let on : checking ≡ phase = cc h in
          let here : v ≡ w' = cc h in rw (← on, ← here) (checks (stage w) (stage v) grown)
      after (ok true) v sealed ready grown h =
          let at =
            stage-closed u holds view store vault failures n t shares threshold (view v.vault)
              (ready refl) (sealed refl) in
          after_run v (subst (Grew (stage w)) at grown) (sealed refl) (ready refl) (unseal u fuel v)
            refl h

  configured_moves :
      (admin : (x : VaultView) → Administers u.cl (λ v. view v ≡ x)) (o : WorkerOptions)
      (w : World K V)
      → stage (configure_once u o w).1 ≡ stage w
  configured_moves admin o w = ap stage_of (
      ((Keeps-configure_vault u.cl u.key_store (λ v. view v ≡ view w.vault) (λ k. Unit {0})
          (admin (view w.vault)) (λ key. record { at = λ k h. tt }) o
          (root_token_id o.unsealer_options.key_prefix)).at
        w (refl, tt)).0)

  step-Moves :
      (admin : (x : VaultView) → Administers u.cl (λ v. view v ≡ x)) (o : WorkerOptions) (fuel : ℕ)
      (s s' : State K V)
      → step u o fuel s ≡ some s'
      → Moves s.phase (stage s.world) s'.phase (stage s'.world)
  unfolding step
  step-Moves admin o fuel s s' h = in_phase s.phase refl
    where
      in_phase : (p : Phase) → s.phase ≡ p → Moves s.phase (stage s.world) s'.phase (stage s'.world)
      in_phase checking at =
          rw at (round-Moves fuel s.world s'.world s'.phase (step-round u o fuel s s' at h).0)
      in_phase configuring at =
          let run : configured u o s ≡ s' = cc (ap (λ p. step_in u o p fuel s) (sym at), h) in
          rw (at, ← run, configured_moves admin o s.world)
            (elim (Result-cases (configure_once u o s.world).0) [
              | inl (done, p) ↦ rw p (configures (stage s.world))
              | inr (e, p) ↦ rw p (repeats (stage s.world))
            ])

-- Every run of the loop is a run of the lifecycle: a round of the outer loop initializes a fresh
-- vault or does not, then goes on to the configuration only if it has itself unsealed a sealed one;
-- a configuration leaves the stage as it is, and either is repeated or returns to the outer loop.
pub refines :
    {K V : Type 0} (u : Unsealer K V) (o : WorkerOptions) (holds : K → Text → Option Text)
    (view : V → VaultView) (store : KvContract u.key_store holds) (vault : VaultContract u.cl view)
    (failures : VaultFailures u.cl view)
    (admin : (x : VaultView) → Administers u.cl (λ v. view v ≡ x)) (n t : ℕ) (s s' : State K V)
    → u.config.secret_shares ≡ pos n
    → u.config.secret_threshold ≡ pos t
    → Steps u o s s'
    → Runs s.phase (stage_of (view s.world.vault)) s'.phase (stage_of (view s'.world.vault))
refines u o holds view store vault failures admin n t s s' shares threshold (stay _) =
    rest s.phase (stage_of (view s.world.vault))
refines u o holds view store vault failures admin n t s s' shares threshold
      (next fuel _ r _ e more) =
    move s.phase r.phase s'.phase (stage_of (view s.world.vault)) (stage_of (view r.world.vault))
      (stage_of (view s'.world.vault))
      (step-Moves u holds view store vault failures n t shares threshold admin o fuel s r e)
      (refines u o holds view store vault failures admin n t r s' shares threshold more)

-- If a run from the head of the outer loop comes to the configuration, then the vault is initialized
-- and unsealed there, and at the end of every run that goes on from there.
pub configures_opened :
    {K V : Type 0} (u : Unsealer K V) (o : WorkerOptions) (holds : K → Text → Option Text)
    (view : V → VaultView) (store : KvContract u.key_store holds) (vault : VaultContract u.cl view)
    (failures : VaultFailures u.cl view)
    (admin : (x : VaultView) → Administers u.cl (λ v. view v ≡ x)) (n t : ℕ) (s r s' : State K V)
    → u.config.secret_shares ≡ pos n
    → u.config.secret_threshold ≡ pos t
    → s.phase ≡ checking
    → r.phase ≡ configuring
    → Steps u o s r
    → Steps u o r s'
    → (stage_of (view r.world.vault) ≡ opened) × (stage_of (view s'.world.vault) ≡ opened)
configures_opened u o holds view store vault failures admin n t s r s' shares threshold phase on run
      more =
    let first = refines u o holds view store vault failures admin n t s r shares threshold run in
    let second = refines u o holds view store vault failures admin n t r s' shares threshold more in
    let settled = Runs-Settled s.phase r.phase _ _ first (rw phase tt) in
    let here = subst (λ p. Settled p (stage_of (view r.world.vault))) on settled in
    (here, Runs-opened r.phase s'.phase _ _ second here)
