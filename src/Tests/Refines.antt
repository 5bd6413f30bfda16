-- ===== src/Tests/Refines.antt =====
-- A run of the worker in memory and its lifecycle.
use unsealer.Prelude.{◌≡◌, refl}
use unsealer.Vault.Contract.{VaultView}
use unsealer.Worker.Administers.{Administers}
use unsealer.Worker.Lifecycle.{closed, opened, stage_of, Runs}
use unsealer.Worker.Loop.{checking}
use unsealer.Worker.Steps.{stay}
use unsealer.Worker.Refines.{refines, configures_opened}
use unsealer.Tests.Store.{held, memory-KvContract}
use unsealer.Tests.Server.{permitted_keeps, server_client, view, server-VaultContract}
use unsealer.Tests.Unseal.{u}
use unsealer.Tests.Worker.{worker_options, first_state, first_round}
use unsealer.Tests.TooFew.{server-VaultFailures}

server-Administers : (x : VaultView) → Administers server_client (λ s. view s ≡ x)
server-Administers x = record {
  list_auth_keeps = record { at = λ v h. permitted_keeps (λ s. view s ≡ x) v _ h h };
  enable_auth_keeps = λ path kind. record { at = λ v h. permitted_keeps (λ s. view s ≡ x) v _ h h };
  put_policy_keeps = λ name rules. record { at = λ v h. permitted_keeps (λ s. view s ≡ x) v _ h h };
  raw_request_keeps = λ r. record { at = λ v h. permitted_keeps (λ s. view s ≡ x) v _ h h };
  set_token_keeps = λ token v h. h;
}

refines_example :
    Runs checking closed first_round.0.phase (stage_of (view first_round.0.world.vault))
refines_example =
    refines u worker_options held view memory-KvContract server-VaultContract server-VaultFailures
      server-Administers 5 3 first_state first_round.0 refl refl first_round.1

configures_opened_example :
    (stage_of (view first_round.0.world.vault) ≡ opened)
    × (stage_of (view first_round.0.world.vault) ≡ opened)
configures_opened_example =
    configures_opened u worker_options held view memory-KvContract server-VaultContract
      server-VaultFailures server-Administers 5 3 first_state first_round.0 first_round.0 refl refl
      refl first_round.2 first_round.1 (stay first_round.0)
