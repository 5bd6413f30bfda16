-- ===== src/Worker/Stuck.antt =====
-- The inner loop of pkg/worker/worker.go where no root token is stored.
use unsealer.Prelude.{ℕ, ◌≡◌, sym, ap, refl, Option, none, some, List, arith, inl, inr}
use unsealer.Prelude.Int.{ℤ}
use unsealer.Text.{Text, text}
use unsealer.Effect.{Error, wrapped, err, Result-cases}
use unsealer.Kv.Contract.{KvContract}
use unsealer.Vault.Keys.{root_token_id}
use unsealer.Vault.World.{World}
use unsealer.Vault.Unseal.Defs.{Unsealer}
use unsealer.Worker.Options.{WorkerOptions}
use unsealer.Worker.Configure.{configure_vault}
use unsealer.Worker.Loop.{configuring, State, step, step_in, configured, configure_once}
use unsealer.Worker.Steps.{Steps, Steps-invariant}

module _ {K V : Type 0} (u : Unsealer K V) (o : WorkerOptions) (holds : K → Text → Option Text)
    (store : KvContract u.key_store holds) where
  abbrev root_id : Text
  root_id = root_token_id o.unsealer_options.key_prefix

  abbrev Stuck : List ℤ → State K V → Type 0
  Stuck slept s = (s.phase ≡ configuring) × (holds s.world.store root_id ≡ none) × (s.slept ≡ slept)

  configure_fails :
      (w : World K V)
      → holds w.store root_id ≡ none
      → ((e : Error) × ((configure_once u o w).0 ≡ err e))
        × (holds (configure_once u o w).1.store root_id ≡ none)
  unfolding configure_vault
  configure_fails w absent = elim (Result-cases (u.key_store.get root_id w.store).0) [
    | inl (v, p) ↦ absurd (cc (store.get_ok root_id w.store p, absent))
    | inr (e, p) ↦ (
      (wrapped (text "failed to get the root token") e, ground arith),
      ground (arith, store.get_keeps root_id w.store root_id),
    )
  ]

  step-Stuck :
      (slept : List ℤ) (fuel : ℕ) (s t : State K V)
      → step u o fuel s ≡ some t
      → Stuck slept s
      → Stuck slept t
  unfolding step
  step-Stuck slept fuel s t h (phase, absent, same) =
      let ((e, fails), kept) = configure_fails s.world absent in
      let run : configured u o s ≡ t = cc (ap (λ p. step_in u o p fuel s) (sym phase), h) in
      rw (← run) (rw fails refl, kept, same)

-- If the key store holds no root token, as where it is not to be stored, then a loop that has come
-- to the configuration stays in it for ever, and never sleeps again.
pub configures_forever :
    {K V : Type 0} (u : Unsealer K V) (o : WorkerOptions) (holds : K → Text → Option Text)
    (store : KvContract u.key_store holds) (s t : State K V)
    → s.phase ≡ configuring
    → holds s.world.store (root_token_id o.unsealer_options.key_prefix) ≡ none
    → Steps u o s t
    → (t.phase ≡ configuring) × (t.slept ≡ s.slept)
configures_forever u o holds store s t phase absent run =
    let (still, kept, slept) =
      Steps-invariant u o (Stuck u o holds store s.slept) (step-Stuck u o holds store s.slept) s t
        run (phase, absent, refl) in
    (still, slept)
