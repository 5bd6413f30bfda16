-- ===== src/Tests/Configuration.antt =====
-- The theorems on the options, the connection, the choice of the key store and the auth method.
use unsealer.Prelude.{◌≡◌, ◌↔◌, ◌||◌, refl, Bool, true, false, none, some, List, [], ◌∷◌, arith}
use unsealer.Text.{text, text_eq}
use unsealer.Effect.{Error, plain, ok}
use unsealer.Validation.{is_blank}
use unsealer.Kv.{Service}
use unsealer.Kv.Azure.Options.{AzureOptions, validate_azure, validate_azure_auth}
use unsealer.Vault.Unseal.Options.{
  validate_unseal, AreValid, new_unseal_options, validate_unseal-eq-nil,
}
use unsealer.Vault.Connection.{
  TlsConfig, Libraries, tls_config, trust, new_vault_client, tls_config_verifies,
}
use unsealer.Vault.Auth.Defs.{KubernetesAuthenticator, kubernetes_enabled, ensure_auth, ensure_with}
use unsealer.Vault.Auth.Idempotence.{ensure_auth_idempotent}
use unsealer.Vault.Auth.Mounts.{AuthContract}
use unsealer.Kv.Azure.Credentials.{AzureReady}
use unsealer.Kv.AwsKms.Options.{validate_aws}
use unsealer.Kv.CloudKms.Options.{validate_google}
use unsealer.Kv.Kubernetes.Options.{validate_kubernetes}
use unsealer.Vault.Auth.Options.{validate_auth}
use unsealer.Vault.Policy.Options.{validate_policy}
use unsealer.Worker.Options.{
  mode_google_cloud_kms_gcs, mode_aws_kms_ssm, mode_azure_key_vault, mode_kubernetes_secret,
  WorkerOptions, validate_worker,
}
use unsealer.Worker.Service.{Backends}
use unsealer.Worker.Run.{prepare, prepare_ok, run_command, run_command-AreValid}
use unsealer.Vault.Unseal.Defs.{Unsealer}
use unsealer.Worker.Modes.{Ready, get_kv_service-validate_worker}
use unsealer.Tests.Store.{Memory}
use unsealer.Tests.Backends.{toy_environment, toy_failure, toy_azure, backends_with}
use unsealer.Tests.Server.{permitted_keeps, Server, server_client}
use unsealer.Tests.Unseal.{new_server}
use unsealer.Tests.Worker.{worker_options}

validate_unseal-eq-nil_example :
    (validate_unseal new_unseal_options ≡ []) ↔ AreValid new_unseal_options
validate_unseal-eq-nil_example = validate_unseal-eq-nil new_unseal_options

-- A connection with a certificate.
abbrev pub toy_libraries : Libraries Server
toy_libraries = record {
  url_hostname = λ addr. ok (text "127.0.0.1");
  certs_from_pem = λ pem. some pem;
  new_client = λ addr c. ok server_client;
}

abbrev pub default_config : TlsConfig
default_config = record { insecure_skip_verify = false; root_cas = none; server_name = [] }

abbrev made_config : TlsConfig
made_config = record {
  insecure_skip_verify = false;
  root_cas = some (text "PEM");
  server_name = text "127.0.0.1";
}

config_made : tls_config toy_libraries default_config [] false (text "PEM") ≡ ok made_config
unfolding tls_config trust text text_eq
config_made = refl

tls_config_verifies_example :
    (false ≡ (false || is_blank (text "PEM")))
    × (◌≡◌ {A = Bool} false false → some (text "PEM") ≡ toy_libraries.certs_from_pem (text "PEM"))
tls_config_verifies_example =
    tls_config_verifies toy_libraries default_config [] false (text "PEM") {r = made_config} refl
      config_made

-- A client secret in Azure.
abbrev azure_options : AzureOptions
azure_options = record {
  vault_base_url = text "https://keys.vault.azure.net";
  auth_config = record {
    cloud = text "AZUREPUBLICCLOUD";
    tenant_id = text "tenant";
    aad_client_id = text "id";
    aad_client_secret = text "secret";
    aad_client_cert_path = [];
    aad_client_cert_password = [];
    use_managed_identity_extension = false;
  };
  secret_prefix = [];
}

valid_azure : validate_azure azure_options ≡ []
unfolding validate_azure validate_azure_auth text text_eq
valid_azure = refl

abbrev toy_backends : Backends Memory
toy_backends =
    backends_with
      (record { get_secret = λ m. toy_failure; create_or_patch_secret = λ m f. toy_failure })

-- The options of the deployment, in Azure.
abbrev with_azure : WorkerOptions
with_azure = record worker_options { mode = mode_azure_key_vault; azure_options = azure_options }

endpoint_given : is_blank toy_environment.key_vault_endpoint ≡ false
unfolding text text_eq
endpoint_given = refl

not_aws : text_eq mode_azure_key_vault mode_aws_kms_ssm ≡ false
unfolding text text_eq
not_aws = refl

not_google : text_eq mode_azure_key_vault mode_google_cloud_kms_gcs ≡ false
unfolding text text_eq
not_google = refl

not_kubernetes : text_eq mode_azure_key_vault mode_kubernetes_secret ≡ false
unfolding text text_eq
not_kubernetes = refl

no_certificate : is_blank azure_options.auth_config.aad_client_cert_path ≡ true
unfolding text_eq
no_certificate = refl

client_id_given : is_blank azure_options.auth_config.aad_client_id ≡ false
unfolding text text_eq
client_id_given = refl

toy-AzureReady : AzureReady toy_azure azure_options.auth_config
toy-AzureReady = record {
  environment = λ given. (toy_environment, refl, endpoint_given);
  oauth_config = λ endpoint given. (text "tenant", refl);
  identity = λ resource used. absurd (cc used);
  secret = λ config resource id given. (2, refl);
  certificate = λ config resource id path password. absurd (cc (path, no_certificate));
}

toy-Ready : Ready toy_backends with_azure
toy-Ready = record {
  aws_session = λ h. absurd (cc (h, not_aws));
  gcs_client = λ h. absurd (cc (h, not_google));
  cloud_kms_client = λ h. absurd (cc (h, not_google));
  azure_libraries = λ here. toy-AzureReady;
  azure_user_agent = λ here. refl;
  cluster = λ h. absurd (cc (h, not_kubernetes));
  kube_client = λ h. absurd (cc (h, not_kubernetes));
}

valid_with_azure : validate_worker with_azure ≡ []
unfolding validate_worker validate_unseal validate_auth validate_policy validate_google validate_aws
    validate_azure validate_azure_auth validate_kubernetes text text_eq
valid_with_azure = refl

-- The server in memory, asked twice for the auth method.
server-AuthContract : AuthContract server_client (λ s. s.mounts)
server-AuthContract = record {
  list_ok = λ s {l} h. ground arith;
  list_keeps = λ s. permitted_keeps (λ r. r.mounts ≡ s.mounts) s _ refl refl;
  enable_ok = λ path kind s h. ground arith;
}

abbrev authenticator : KubernetesAuthenticator Server
authenticator = record { vc = some server_client; config = none }

-- A client with the root token, at an unsealed server.
abbrev logged_in : Server
logged_in = record new_server {
  vault = record new_server.vault { initialized = true; sealed = false };
  token = text "root";
}

first_ensured : (ensure_auth authenticator logged_in).0 ≡ ok tt
unfolding ensure_auth ensure_with kubernetes_enabled text text_eq
first_ensured = refl

listed_again :
    (server_client.list_auth (ensure_auth authenticator logged_in).1).0
    ≡ ok (ensure_auth authenticator logged_in).1.mounts
unfolding ensure_auth text_eq text kubernetes_enabled
listed_again = refl

ensure_auth_idempotent_example :
    ensure_auth authenticator (ensure_auth authenticator logged_in).1
    ≡ (ok tt, (server_client.list_auth (ensure_auth authenticator logged_in).1).1)
ensure_auth_idempotent_example =
    ensure_auth_idempotent authenticator server_client refl (λ s. s.mounts) server-AuthContract
      logged_in {l = (ensure_auth authenticator logged_in).1.mounts} first_ensured listed_again

-- The command with these options.
abbrev pub first_error : List Error → Error
first_error [] = plain []
first_error (e ∷ errs) = e

client_made :
    new_vault_client toy_libraries default_config with_azure.address true [] ≡ ok server_client
unfolding new_vault_client tls_config trust
client_made = refl

prepared :
    (u : Unsealer Memory Server) × (prepare toy_backends toy_libraries default_config with_azure
      ≡ ok u)
prepared =
    let (s, made) =
      get_kv_service-validate_worker toy_backends with_azure toy-Ready
        (λ here no_identity. client_id_given) valid_with_azure in
    (
      record { key_store = s; cl = server_client; config = with_azure.unsealer_options },
      prepare_ok toy_backends toy_libraries default_config with_azure made client_made,
    )

command_runs :
    run_command toy_backends toy_libraries default_config first_error with_azure ≡ ok prepared.0
unfolding run_command
command_runs = rw valid_with_azure prepared.1

run_command-AreValid_example :
    (prepared.0.config ≡ with_azure.unsealer_options) × AreValid prepared.0.config
run_command-AreValid_example =
    run_command-AreValid toy_backends toy_libraries default_config first_error with_azure
      command_runs
