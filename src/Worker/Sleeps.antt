-- ===== src/Worker/Sleeps.antt =====
-- How long the worker sleeps between two rounds.
use unsealer.Prelude.{ℕ, ◌≡◌, refl, Option, none, some, List, [], ◌∷◌}
use unsealer.Prelude.Int.{ℤ}
use unsealer.Vault.World.{World}
use unsealer.Vault.Unseal.Defs.{Unsealer}
use unsealer.Worker.Options.{WorkerOptions}
use unsealer.Worker.Loop.{
  Phase, checking, configuring, State, start, second, round, step, step_in, checked, configured,
  map_option,
}
use unsealer.Worker.Steps.{Steps, Steps-invariant}

-- All sleeps but the first one, which took a second.
abbrev pub SleptAs : ℤ → ℤ → List ℤ → Type 0
SleptAs retry period [] = period ≡ second
SleptAs retry period (n ∷ slept) = (period ≡ retry) × SleptAs retry n slept

step_sleeps :
    {K V : Type 0} (u : Unsealer K V) (o : WorkerOptions) (fuel : ℕ) (s t : State K V)
    → step u o fuel s ≡ some t
    → SleptAs o.retry_period s.period s.slept
    → SleptAs o.retry_period t.period t.slept
unfolding step
step_sleeps {K} {V} u o fuel s t h slept = in_phase s.phase h
  where
    after_round :
        (r : Option (Phase × World K V))
        → map_option u (checked u o s) r ≡ some t
        → SleptAs o.retry_period t.period t.slept
    after_round none h = absurd (cc h)
    after_round (some (phase, w)) h =
        let same : checked u o s (phase, w) ≡ t = cc h in rw (← same) (refl, slept)

    in_phase :
        (phase : Phase)
        → step_in u o phase fuel s ≡ some t
        → SleptAs o.retry_period t.period t.slept
    in_phase checking h = after_round (round u fuel s.world) h
    in_phase configuring h = let same : configured u o s ≡ t = cc h in rw (← same) slept

-- In every run of the loop the first sleep takes one second, and every other one the retry period;
-- the repetitions of a failed configuration are not preceded by a sleep.
pub sleeps :
    {K V : Type 0} (u : Unsealer K V) (o : WorkerOptions) (w : World K V) (t : State K V)
    → Steps u o (start w) t
    → SleptAs o.retry_period t.period t.slept
sleeps u o w t run =
    Steps-invariant u o (λ r. SleptAs o.retry_period r.period r.slept) (step_sleeps u o) (start w) t
      run refl
