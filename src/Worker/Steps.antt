-- ===== src/Worker/Steps.antt =====
-- The runs of the worker's loop.
use unsealer.Prelude.{ℕ, ◌≡◌, some}
use unsealer.Vault.Unseal.Defs.{Unsealer}
use unsealer.Worker.Options.{WorkerOptions}
use unsealer.Worker.Loop.{State, step}

-- Any number of rounds, each with fuel that is enough for it.
pub data Steps {K V : Type 0} (u : Unsealer K V) (o : WorkerOptions)
    : State K V → State K V → Type 0 where
  stay : (s : State K V) → Steps u o s s
  next : (fuel : ℕ) (s t r : State K V) → step u o fuel s ≡ some t → Steps u o t r → Steps u o s r

-- What every round keeps, a run keeps.
pub Steps-invariant :
    {K V : Type 0} (u : Unsealer K V) (o : WorkerOptions) (P : State K V → Type 0)
    → ((fuel : ℕ) (s t : State K V) → step u o fuel s ≡ some t → P s → P t)
    → (s r : State K V) → Steps u o s r
    → P s
    → P r
Steps-invariant u o P keeps s r (stay _) h = h
Steps-invariant u o P keeps s r (next fuel _ t _ e more) h =
    Steps-invariant u o P keeps t r more (keeps fuel s t e h)
