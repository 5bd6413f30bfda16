-- ===== src/Worker/Loop.antt =====
-- `unsealAndConfigureVault` of pkg/worker/worker.go: two nested loops without an end, as a step on
-- the state between two rounds.
use unsealer.Prelude.{ℕ, Bool, true, false, Option, none, some, List, [], ◌∷◌, if◌then◌else◌}
use unsealer.Prelude.Int.{ℤ, pos}
use unsealer.Effect.{Result, ok, err, Call, pure, ◌>>=◌, ◌>>◌}
use unsealer.Vault.Keys.{root_token_id}
use unsealer.Vault.World.{World}
use unsealer.Vault.Unseal.Defs.{
  Unsealer, is_initialized, is_sealed, check_read_write_access, init, unseal,
}
use unsealer.Worker.Options.{WorkerOptions}
use unsealer.Worker.Configure.{configure_vault}

-- Which of the two loops is at its head.
pub data Phase : Type 0 where
  checking configuring : Phase

-- `period` is what the next sleep takes, `slept` the sleeps so far, the last one first.
pub record State (K V : Type 0) : Type 0 where
  pub phase : Phase
  pub period : ℤ
  pub slept : List ℤ
  pub world : World K V

-- `time.Second`, in nanoseconds.
abbrev pub second : ℤ
second = pos 1000000000

abbrev pub start : {K V : Type 0} → World K V → State K V
start w = record { phase = checking; period = second; slept = []; world = w }

module _ {K V : Type 0} (u : Unsealer K V) where
  -- The access check and `Init` of an uninitialized vault.
  unfoldable pub initialize : Call (World K V) Unit
  unfolding check_read_write_access init
  initialize = do check_read_write_access u; init u

  abbrev pub ensure_initialized : Bool → Call (World K V) Unit
  ensure_initialized initialized = if initialized then pure tt else initialize

  -- The body of the outer loop up to the seal status; an error is a `continue`.
  unfoldable pub check_vault : Call (World K V) Bool
  unfolding is_initialized initialize is_sealed
  check_vault = do initialized ← is_initialized u; ensure_initialized initialized; is_sealed u

  abbrev pub after_unseal : Result Unit × World K V → Phase × World K V
  after_unseal (ok done, w) = (configuring, w)
  after_unseal (err e, w) = (checking, w)

  abbrev pub map_option : {A B : Type 0} → (A → B) → Option A → Option B
  map_option f none = none
  map_option f (some a) = some (f a)

  abbrev pub unseal_if : ℕ → Result Bool → World K V → Option (Phase × World K V)
  unseal_if fuel (err e) w = some (checking, w)
  unseal_if fuel (ok false) w = some (checking, w)
  unseal_if fuel (ok true) w = map_option after_unseal (unseal u fuel w)

  -- A round of the outer loop up to the inner one; `none` if the fuel of `Unseal` runs out.
  unfoldable pub round : ℕ → World K V → Option (Phase × World K V)
  unfolding check_vault unseal
  round fuel w = let (r, w') = check_vault w in unseal_if fuel r w'

module _ {K V : Type 0} (u : Unsealer K V) (o : WorkerOptions) where
  abbrev pub configure_once : Call (World K V) Unit
  configure_once = configure_vault o u.cl u.key_store (root_token_id o.unsealer_options.key_prefix)

  abbrev pub after_configure : Result Unit → Phase
  after_configure (ok done) = checking
  after_configure (err e) = configuring

  abbrev pub checked : State K V → Phase × World K V → State K V
  checked s (phase, w) = record {
    phase = phase;
    period = o.retry_period;
    slept = s.period ∷ s.slept;
    world = w;
  }

  abbrev pub configured : State K V → State K V
  configured s =
      let (r, w) = configure_once s.world in record s { phase = after_configure r; world = w }

  abbrev pub step_in : Phase → ℕ → State K V → Option (State K V)
  step_in checking fuel s = map_option u (checked s) (round u fuel s.world)
  step_in configuring fuel s = some (configured s)

  -- One round of the loop that the state is in.
  unfoldable pub step : ℕ → State K V → Option (State K V)
  unfolding round configure_vault
  step fuel s = step_in s.phase fuel s
