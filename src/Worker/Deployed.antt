-- ===== src/Worker/Deployed.antt =====
-- The run command of pkg/cmds/run.go from its options to the keys in the store that they name.
use unsealer.Prelude.{◌≡◌, List, true, Bool, inl, inr, arith}
use unsealer.Text.{Text}
use unsealer.Effect.{Error, ok, Result-cases}
use unsealer.Kv.Contract.{KvValues}
use unsealer.Vault.Connection.{TlsConfig, Libraries, new_vault_client}
use unsealer.Vault.Unseal.Defs.{Unsealer, new}
use unsealer.Worker.Contract.{StaysInitialized}
use unsealer.Worker.Options.{WorkerOptions, validate_worker}
use unsealer.Worker.Service.{Backends, get_kv_service}
use unsealer.Worker.Run.{prepare, run_command, run_if_ok}
use unsealer.Worker.Loop.{State}
use unsealer.Worker.Steps.{Steps}
use unsealer.Worker.KeySafety.{keys_kept}
use unsealer.Worker.Stores.{Documented, stored_by, get_kv_service-KvContract}
use unsealer.Worker.Stores.Kept.{Views}

module _ {K V : Type 0} (b : Backends K) (lib : Libraries V) (c : TlsConfig) where
  pub prepare_store :
      (o : WorkerOptions) {u : Unsealer K V}
      → prepare b lib c o ≡ ok u
      → get_kv_service b o ≡ ok u.key_store
  unfolding prepare new
  prepare_store o {u} h = elim (Result-cases (get_kv_service b o)) [
    | inl (s, p) ↦
        elim (Result-cases
          (new_vault_client lib c o.address o.insecure_skip_tls_verify o.ca_cert)) [
            | inl (vc, q) ↦ ground arith
            | inr (e, q) ↦ absurd (ground arith)
          ]
    | inr (e, p) ↦ absurd (ground arith)
  ]

  -- The unsealer of a command that comes to its loop works on the key store of the chosen mode.
  run_command-KvValues :
      (v : Views K) (aggregate : List Error → Error) (o : WorkerOptions) {u : Unsealer K V}
      → Documented b v o
      → run_command b lib c aggregate o ≡ ok u
      → KvValues u.key_store (stored_by b v o)
  unfolding run_command
  run_command-KvValues v aggregate o {u} d h =
      (get_kv_service-KvContract b v o u.key_store d
        (prepare_store o (run_if_ok b lib c aggregate o (validate_worker o) h).1)).0

-- If the command comes to its loop, the service of its mode behaves as it is documented (in Azure no
-- two versions of a secret have the same creation time besides; any call may fail), and an
-- initialized Vault server stays initialized, then no run of the loop from a state at which the
-- server is initialized changes what that service holds under any name: the parameters, objects or
-- secrets that the options name keep what they decrypt to.
pub run_command_keeps :
    {K V : Type 0} (b : Backends K) (lib : Libraries V) (c : TlsConfig) (v : Views K)
    (aggregate : List Error → Error) (o : WorkerOptions) (u : Unsealer K V)
    → Documented b v o
    → run_command b lib c aggregate o ≡ ok u
    → (initialized : V → Bool) (server : StaysInitialized u.cl initialized) (s t : State K V)
    → Steps u o s t
    → initialized s.world.vault ≡ true
    → (initialized t.world.vault ≡ true)
      × ((j : Text) → stored_by b v o t.world.store j ≡ stored_by b v o s.world.store j)
run_command_keeps b lib c v aggregate o u d h =
    keys_kept u o (stored_by b v o) (run_command-KvValues b lib c v aggregate o d h)
