-- ===== src/Kv/Azure/ConfigFile.antt =====
-- `GetConfigFromFile` of pkg/kv/azure/oauth.go, over the calls that it makes of os, ioutil and
-- github.com/ghodss/yaml. An open file is a handle.
use unsealer.Prelude.{ℕ, false, [], if◌then◌else◌}
use unsealer.Text.{Text, text}
use unsealer.Effect.{Error, plain, Result, ok, err}
use unsealer.Validation.{is_blank}
use unsealer.Kv.Azure.Options.{AzureAuthConfig}

pub record ConfigFiles : Type 0 where
  pub open_file : Text → Result ℕ
  pub read_all : ℕ → Result Text
  -- `yaml.Unmarshal` into a configuration that has some values already.
  pub unmarshal : Text → AzureAuthConfig → Result AzureAuthConfig

-- `klog.Fatalf` ends the program.
pub data Outcome (A : Type 0) : Type 0 where
  returned : A → Outcome A
  exited : Error → Outcome A

-- `&AzureAuthConfig{}`
abbrev pub zero_config : AzureAuthConfig
zero_config = record {
  cloud = [];
  tenant_id = [];
  aad_client_id = [];
  aad_client_secret = [];
  aad_client_cert_path = [];
  aad_client_cert_password = [];
  use_managed_identity_extension = false;
}

unfoldable pub read_config : ConfigFiles → ℕ → Result AzureAuthConfig
read_config files config_file = elim (files.read_all config_file) [
  | err e ↦ err e
  | ok config_contents ↦ files.unmarshal config_contents zero_config
]

unfoldable pub get_config_from_file : ConfigFiles → Text → Outcome (Result AzureAuthConfig)
unfolding read_config
get_config_from_file files config_file_path =
    if is_blank config_file_path
    then returned (err (plain (text "config file not provided")))
    else elim (files.open_file config_file_path) [
      | err e ↦ exited e
      | ok config_file ↦ returned (read_config files config_file)
    ]
