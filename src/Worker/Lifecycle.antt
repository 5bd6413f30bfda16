-- ===== src/Worker/Lifecycle.antt =====
-- What the loop of pkg/worker does, seen from the vault: a machine on its stage and on the loop that
-- runs.
use unsealer.Prelude.{◌≡◌, refl, if◌then◌else◌}
use unsealer.Vault.Contract.{VaultView}
use unsealer.Worker.Loop.{Phase, checking, configuring}

pub data Stage : Type 0 where
  fresh closed opened : Stage

abbrev pub stage_of : VaultView → Stage
stage_of v = if v.initialized then (if v.sealed then closed else opened) else fresh

-- A round may initialize a vault.
pub data Grew : Stage → Stage → Type 0 where
  same : (g : Stage) → Grew g g
  begun : Grew fresh closed

-- One round of the loop that is at its head.
pub data Moves : Phase → Stage → Phase → Stage → Type 0 where
  -- The vault is not unsealed in this round.
  checks : (g h : Stage) → Grew g h → Moves checking g checking h
  -- It is, but the answer is lost.
  unseen : (g : Stage) → Grew g closed → Moves checking g checking opened
  unseals : (g : Stage) → Grew g closed → Moves checking g configuring opened
  repeats : (g : Stage) → Moves configuring g configuring g
  configures : (g : Stage) → Moves configuring g checking g

pub data Runs : Phase → Stage → Phase → Stage → Type 0 where
  rest : (p : Phase) (g : Stage) → Runs p g p g
  move : (p q r : Phase) (g h k : Stage) → Moves p g q h → Runs q h r k → Runs p g r k

-- A vault that is not unsealed is only ever checked, and one that is unsealed stays so.
abbrev pub Settled : Phase → Stage → Type 0
Settled checking g = Unit
Settled configuring g = g ≡ opened

Moves-Settled : (p q : Phase) (g h : Stage) → Moves p g q h → Settled p g → Settled q h
Moves-Settled _ _ _ _ (checks g h m) s = tt
Moves-Settled _ _ _ _ (unseen g m) s = tt
Moves-Settled _ _ _ _ (unseals g m) s = refl
Moves-Settled _ _ _ _ (repeats g) s = s
Moves-Settled _ _ _ _ (configures g) s = tt

pub Runs-Settled : (p q : Phase) (g h : Stage) → Runs p g q h → Settled p g → Settled q h
Runs-Settled _ _ _ _ (rest p g) s = s
Runs-Settled _ _ _ _ (move p q r g h k m more) s =
    Runs-Settled q r h k more (Moves-Settled p q g h m s)

Grew-opened : (g h : Stage) → Grew g h → g ≡ opened → h ≡ opened
Grew-opened _ _ (same g) e = e
Grew-opened _ _ begun e = absurd (cc e)

Moves-opened : (p q : Phase) (g h : Stage) → Moves p g q h → g ≡ opened → h ≡ opened
Moves-opened _ _ _ _ (checks g h m) e = Grew-opened g h m e
Moves-opened _ _ _ _ (unseen g m) e = refl
Moves-opened _ _ _ _ (unseals g m) e = refl
Moves-opened _ _ _ _ (repeats g) e = e
Moves-opened _ _ _ _ (configures g) e = e

pub Runs-opened : (p q : Phase) (g h : Stage) → Runs p g q h → g ≡ opened → h ≡ opened
Runs-opened _ _ _ _ (rest p g) e = e
Runs-opened _ _ _ _ (move p q r g h k m more) e =
    Runs-opened q r h k more (Moves-opened p q g h m e)
