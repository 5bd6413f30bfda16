-- ===== src/Tests/Requests.antt =====
-- The configuration, at a server that keeps a log.
use unsealer.Prelude.{◌≡◌, refl, true, false, List, [], ◌∷◌, arith}
use unsealer.Text.{Text, text, text_eq}
use unsealer.Effect.{plain, ok, err}
use unsealer.Vault.Client.{VaultClient, AuthMount}
use unsealer.Vault.World.{World}
use unsealer.Vault.Auth.Defs.{
  ensure_auth, ensure_with, configure_auth, send, kubernetes_enabled, config_request,
  config_payload,
}
use unsealer.Vault.Policy.Defs.{
  ensure_policy_and_policy_binding, policy_admin, role_request, role_payload,
}
use unsealer.Worker.Configure.{configure_vault}
use unsealer.Worker.Requests.{
  Event, token, enabled, policy, request, LogContract, enabling, configure_vault_requests,
}
use unsealer.Tests.Store.{Memory, memory_store, write, empty_memory, all_bytes}
use unsealer.Tests.Worker.{worker_options}

record Logging : Type 0 where
  events : List Event
  mounts : List AuthMount

abbrev noted : Event → Logging → Logging
noted e s = record s { events = e ∷ s.events }

abbrev logging_client : VaultClient Logging
logging_client = record {
  seal_status = λ s. (ok (record { sealed = false; progress = 0 }), s);
  init_status = λ s. (ok true, s);
  init = λ q s. (err (plain (text "Vault is already initialized")), s);
  unseal = λ k s. (ok (record { sealed = false; progress = 0 }), s);
  list_auth = λ s. (ok s.mounts, s);
  enable_auth = λ path kind s. (
    ok tt,
    record {
      events = enabled path kind ∷ s.events;
      mounts = record { path = path; kind = kind } ∷ s.mounts;
    },
  );
  put_policy = λ name rules s. (ok tt, noted (policy name rules) s);
  set_token = λ t s. noted (token t) s;
  set_json_body = λ r body. ok (record r { body = body });
  raw_request = λ r s. (ok tt, noted (request r) s);
}

logging-LogContract : LogContract logging_client (λ s. s.events) (λ s. s.mounts)
logging-LogContract = record {
  token_logged = λ t s. refl;
  token_keeps = λ t s. refl;
  list_ok = λ s {l} h. ground arith;
  list_keeps = λ s. refl;
  enable_ok = λ path kind s h. refl;
  put_policy_ok = λ name rules s h. refl;
  body_ok = λ r body {s} h. ground arith;
  request_ok = λ r s h. refl;
}

abbrev root_id : Text
root_id = text "vault-root-token"

abbrev unsealed_world : World Memory Logging
unsealed_world = record {
  store = write root_id (text "root") empty_memory;
  vault = record { events = []; mounts = [] };
}

configures :
    (configure_vault worker_options logging_client memory_store root_id unsealed_world).0 ≡ ok tt
unfolding configure_vault ensure_auth ensure_with kubernetes_enabled configure_auth send
    ensure_policy_and_policy_binding text text_eq all_bytes
configures = refl

configure_vault_requests_example :
    (root : Text) × ((memory_store.get root_id unsealed_world.store).0 ≡ ok root)
    × ((configure_vault worker_options logging_client memory_store root_id
          unsealed_world).1.vault.events
        ≡ request (record (role_request worker_options.policy_manager_options) {
          body = role_payload worker_options.policy_manager_options;
        })
          ∷ policy (text "vault-policy-controller") policy_admin
          ∷ request
              (record config_request { body = config_payload worker_options.authenticator_options })
          ∷ enabling [] (token root ∷ []))
configure_vault_requests_example =
    configure_vault_requests logging_client (λ s. s.events) (λ s. s.mounts) logging-LogContract
      worker_options memory_store root_id unsealed_world configures
