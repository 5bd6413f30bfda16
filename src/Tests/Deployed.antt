-- ===== src/Tests/Deployed.antt =====
-- The run command over a Kubernetes API and a Vault server in memory.
use unsealer.Prelude.{◌≡◌, refl, true, some, none, [], ◌∷◌, false}
use unsealer.Prelude.Int.{pos}
use unsealer.Text.{Text, text, text_eq}
use unsealer.Text.Decimal.{decimal}
use unsealer.Effect.{ok}
use unsealer.Kv.Kubernetes.Defs.{ObjectMeta, Secret, service, get, entry, lookup}
use unsealer.Vault.Keys.{unseal_key_id}
use unsealer.Vault.Connection.{new_vault_client, tls_config, trust}
use unsealer.Vault.Unseal.Defs.{
  Unsealer, is_initialized, is_sealed, unseal, unseal_from, unseal_round,
}
use unsealer.Worker.Run.{prepare_ok, run_command}
use unsealer.Worker.Loop.{State, configuring, step, round, check_vault, start as start_at}
use unsealer.Worker.Steps.{stay, next}
use unsealer.Worker.Stores.{stored_by}
use unsealer.Worker.Deployed.{run_command_keeps}
use unsealer.Tests.Store.{all_bytes}
use unsealer.Vault.Contract.{submit}
use unsealer.Tests.Server.{Server, server_client, status}
use unsealer.Tests.Unseal.{options, new_server, key, sealed_world}
use unsealer.Tests.Worker.{worker_options, valid_worker, has_state, server-StaysInitialized}
use unsealer.Tests.Secrets.{Cluster, write, all_values}
use unsealer.Tests.Configuration.{toy_libraries, default_config, first_error}
use unsealer.Tests.Stores.{
  cluster_backends, cluster_views, cluster-Documented, cluster_store, store_made,
}

abbrev pub deployed : Unsealer Cluster Server
deployed = record { key_store = service cluster_store; cl = server_client; config = options }

client_made :
    new_vault_client toy_libraries default_config worker_options.address true [] ≡ ok server_client
unfolding new_vault_client tls_config trust
client_made = refl

pub command_runs :
    run_command cluster_backends toy_libraries default_config first_error worker_options
    ≡ ok deployed
unfolding run_command
command_runs =
    rw valid_worker (
      prepare_ok cluster_backends toy_libraries default_config worker_options store_made
        client_made)

-- A secret with the first three of five shares.
abbrev secret_place : ObjectMeta
secret_place = record { name = text "vault-keys"; namespace = text "demo" }

abbrev key_secret : Secret
key_secret = record {
  meta = secret_place;
  entries = some ((key 0, 4 ∷ []) ∷ (key 1, 3 ∷ []) ∷ (key 2, 2 ∷ []) ∷ []);
}

abbrev with_keys : Cluster
with_keys = write secret_place key_secret (λ m. none)

abbrev closed : State Cluster Server
closed = start_at (record { store = with_keys; vault = sealed_world.vault })

-- The round submits the three shares, which open the vault.
abbrev opened : State Cluster Server
opened = record {
  phase = configuring;
  period = pos 10000000000;
  slept = pos 1000000000 ∷ [];
  world = record {
    store = with_keys;
    vault = record new_server {
      vault = record sealed_world.vault.vault { sealed = false; pending = [] };
    };
  };
}

opens : step deployed worker_options 3 closed ≡ some opened
unfolding step round check_vault is_initialized is_sealed unseal unseal_from unseal_round status
    unseal_key_id get entry lookup text text_eq decimal all_bytes all_values submit service
opens = refl

run_command_keeps_example :
    (has_state opened.world.vault ≡ true)
    × ((j : Text)
        → stored_by cluster_backends cluster_views worker_options opened.world.store j
          ≡ stored_by cluster_backends cluster_views worker_options closed.world.store j)
run_command_keeps_example =
    run_command_keeps cluster_backends toy_libraries default_config cluster_views first_error
      worker_options deployed cluster-Documented command_runs has_state server-StaysInitialized
      closed opened (next 3 closed opened opened opens (stay opened)) refl
