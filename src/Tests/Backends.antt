-- ===== src/Tests/Backends.antt =====
-- Libraries that make their clients; only those of Kubernetes are given.
use unsealer.Prelude.{[]}
use unsealer.Text.{text}
use unsealer.Effect.{plain, ok, err, Call}
use unsealer.Kv.Azure.Oauth.{Environment, AzureSdk}
use unsealer.Kv.Kubernetes.Defs.{KubeClient}
use unsealer.Worker.Service.{Backends}

abbrev pub toy_failure : {K A : Type 0} → Call K A
toy_failure w = (err (plain (text "offline")), w)

abbrev pub toy_environment : Environment
toy_environment = record {
  key_vault_endpoint = text "https://vault.azure.net/";
  active_directory_endpoint = text "https://login.microsoftonline.com/";
  service_management_endpoint = text "https://management.core.windows.net/";
}

abbrev pub toy_azure : AzureSdk
toy_azure = record {
  public_cloud = toy_environment;
  environment_from_name = λ name. ok toy_environment;
  new_oauth_config = λ endpoint tenant. ok tenant;
  get_msi_vm_endpoint = ok (text "http://169.254.169.254");
  token_from_msi = λ endpoint resource. ok 1;
  token_from_secret = λ config id secret resource. ok 2;
  token_from_certificate = λ config id certificate resource. ok 3;
  read_file = λ path. ok [];
  decode_certificate = λ pkcs password. err (plain (text "no certificate"));
}

abbrev pub backends_with : {K : Type 0} → KubeClient K → Backends K
backends_with client = record {
  aws = record {
    new_session = ok tt;
    metadata = err (plain (text "no metadata"));
    new_ssm = λ region. record {
      get_parameters = λ names b. toy_failure;
      put_parameter = λ input. toy_failure;
      delete_parameter = λ name. toy_failure;
    };
    new_kms = λ region. record { encrypt = λ q. toy_failure; decrypt = λ q. toy_failure };
  };
  gcs = ok (record {
    write = λ o v. toy_failure;
    close = λ o. toy_failure;
    new_reader = λ o. toy_failure;
    read_all = λ r. toy_failure;
    delete = λ o. toy_failure;
  });
  cloud_kms = ok (record { encrypt = λ path s. toy_failure; decrypt = λ path s. toy_failure });
  azure = record {
    oauth = toy_azure;
    new_client = λ token. record {
      set_secret = λ url name p. toy_failure;
      get_secret = λ url name version. toy_failure;
      get_secret_versions = λ url name n. toy_failure;
      delete_secret = λ url name. toy_failure;
    };
    add_to_user_agent = ok tt;
  };
  kubernetes = record {
    current_namespace = text "demo";
    in_cluster_config = ok tt;
    new_for_config = ok client;
  };
}
