-- ===== src/Tests/Worker.antt =====
-- The theorems on the worker, at the key store and the server in memory.
use unsealer.Prelude.{◌≡◌, refl, Bool, true, false, some, [], ◌∷◌, arith}
use unsealer.Prelude.Int.{pos}
use unsealer.Text.{Text, text, text_eq}
use unsealer.Kv.AwsKms.Options.{validate_aws}
use unsealer.Kv.CloudKms.Options.{validate_google}
use unsealer.Kv.Azure.Options.{AzureAuthConfig, validate_azure, validate_azure_auth}
use unsealer.Kv.Kubernetes.Options.{validate_kubernetes}
use unsealer.Vault.Contract.{VaultView, submit}
use unsealer.Vault.Auth.Options.{validate_auth}
use unsealer.Vault.Policy.Options.{validate_policy}
use unsealer.Vault.Unseal.Options.{validate_unseal}
use unsealer.Worker.Options.{WorkerOptions, validate_worker, mode_kubernetes_secret}
use unsealer.Worker.Contract.{StaysInitialized}
use unsealer.Worker.Loop.{configuring, State, step, start as start_at}
use unsealer.Worker.Steps.{Steps, stay, next}
use unsealer.Worker.KeySafety.{keys_survive}
use unsealer.Worker.Unsealed.{StatusAvailable, step_unseals}
use unsealer.Tests.Store.{Memory, held, memory-KvContract, memory-KvAvailable}
use unsealer.Tests.Server.{
  permitted_keeps, Server, server_client, view, server-VaultContract, server-VaultAvailable, status,
}
use unsealer.Tests.Unseal.{options, u, sealed_world, keys_held, shares_right, shares_known}

submit_initialized :
    (k : Text) (v : VaultView) → v.initialized ≡ true → (submit k v).initialized ≡ true
unfolding submit
submit_initialized k v h = ground arith

abbrev pub has_state : Server → Bool
has_state s = s.vault.initialized

pub server-StaysInitialized : StaysInitialized server_client has_state
server-StaysInitialized = record {
  status_true = λ v {b} answered h. ground arith;
  init_status_keeps = record { at = λ v h. h };
  seal_status_keeps = record { at = λ v h. h };
  unseal_keeps = λ k. record { at = λ v h. ground (arith, submit_initialized k v.vault h) };
  list_auth_keeps = record { at = λ v h. permitted_keeps (λ s. has_state s ≡ true) v _ h h };
  enable_auth_keeps =
      λ path kind. record { at = λ v h. permitted_keeps (λ s. has_state s ≡ true) v _ h h };
  put_policy_keeps =
      λ name rules. record { at = λ v h. permitted_keeps (λ s. has_state s ≡ true) v _ h h };
  raw_request_keeps = λ r. record { at = λ v h. permitted_keeps (λ s. has_state s ≡ true) v _ h h };
  set_token_keeps = λ token v h. h;
}

pub server-StatusAvailable : StatusAvailable server_client
server-StatusAvailable = record {
  init_status_answers = λ s. (s.vault.initialized, refl);
  seal_status_answers = λ s. (status s.vault, refl);
}

abbrev no_azure_auth : AzureAuthConfig
no_azure_auth = record {
  cloud = text "AZUREPUBLICCLOUD";
  tenant_id = [];
  aad_client_id = [];
  aad_client_secret = [];
  aad_client_cert_path = [];
  aad_client_cert_password = [];
  use_managed_identity_extension = false;
}

-- The options of a deployment that keeps its keys in a Kubernetes secret.
abbrev pub worker_options : WorkerOptions
worker_options = record {
  address = text "https://127.0.0.1:8200";
  ca_cert = [];
  insecure_skip_tls_verify = true;
  retry_period = pos 10000000000;
  mode = mode_kubernetes_secret;
  authenticator_options = record { host = text "https://10.96.0.1"; ca = []; token = text "jwt" };
  unsealer_options = options;
  policy_manager_options = record {
    name = text "vault-policy-controller";
    service_account_name = text "vault";
    service_account_namespace = text "demo";
  };
  google_options = record {
    kms_crypto_key = [];
    kms_key_ring = [];
    kms_location = [];
    kms_project = [];
    storage_bucket = [];
    storage_prefix = [];
  };
  aws_options = record { kms_key_id = []; use_secure_string = false; ssm_key_prefix = [] };
  azure_options = record { vault_base_url = []; auth_config = no_azure_auth; secret_prefix = [] };
  kubernetes_options = record { secret_name = text "vault-keys" };
}

abbrev pub first_state : State Memory Server
first_state = start_at sealed_world

step_unseals_example :
    (t : State Memory Server) × (step u worker_options 3 first_state ≡ some t)
    × (t.phase ≡ configuring)
    × (t.period ≡ pos 10000000000)
    × ((view t.world.vault).sealed ≡ false)
step_unseals_example =
    step_unseals u worker_options held view memory-KvContract server-VaultContract
      memory-KvAvailable server-VaultAvailable server-StatusAvailable
      ((4 ∷ []) ∷ (3 ∷ []) ∷ (2 ∷ []) ∷ []) first_state refl refl refl refl
      (keys_held.0, (keys_held.1, (keys_held.2, tt))) shares_right shares_known refl (omega arith)

-- One round of the loop.
pub first_round :
    (t : State Memory Server) × Steps u worker_options first_state t × (t.phase ≡ configuring)
first_round =
    let (t, run, phase, period, opened) =
      step_unseals u worker_options held view memory-KvContract server-VaultContract
        memory-KvAvailable server-VaultAvailable server-StatusAvailable
        ((4 ∷ []) ∷ (3 ∷ []) ∷ (2 ∷ []) ∷ []) first_state refl refl refl refl
        (keys_held.0, (keys_held.1, (keys_held.2, tt))) shares_right shares_known refl
        (omega arith) in
    (t, next 3 first_state t t run (stay t), phase)

keys_survive_example :
    (has_state first_round.0.world.vault ≡ true)
    × ((j : Text) → held first_round.0.world.store j ≡ held sealed_world.store j)
keys_survive_example =
    keys_survive u worker_options held memory-KvContract has_state server-StaysInitialized
      first_state first_round.0 first_round.1 refl

pub valid_worker : validate_worker worker_options ≡ []
unfolding validate_worker validate_unseal validate_auth validate_policy validate_google validate_aws
    validate_azure validate_azure_auth validate_kubernetes text text_eq
valid_worker = refl
