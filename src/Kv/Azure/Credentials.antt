-- ===== src/Kv/Azure/Credentials.antt =====
-- The validated options of pkg/kv/azure/options.go, and the credentials of pkg/kv/azure/oauth.go.
use unsealer.Prelude.{
  ℕ, refl, ◌⊎◌, inl, inr, Bool-cases, true, some, ◌≡◌, ◌≢◌, false, not, ◌&&◌, ◌||◌, none, [], arith,
}
use unsealer.Validation.{is_blank, append-eq-nil, complain, complain-eq-nil}
use unsealer.Kv.Azure.Options.{AzureAuthConfig, AzureOptions, validate_azure_auth, validate_azure}
use unsealer.Text.{Text}
use unsealer.Effect.{ok}
use unsealer.Kv.Azure.Oauth.{
  Environment, Certificate, AzureSdk, credential, managed_identity, client_secret,
  client_certificate, token_by, certificate_token, decode_pkcs12, get_key_vault_token,
  parse_azure_environment, get_service_principal_token, auth_grant_type, trim_slash,
}

usable_credential :
    (a : AzureAuthConfig)
    → (is_blank a.aad_client_id || is_blank a.aad_client_secret)
        && ((is_blank a.aad_client_cert_path || is_blank a.aad_client_cert_password)
            && not a.use_managed_identity_extension)
      ≡ false
    → credential a ≢ none
unfolding credential
usable_credential a h none_left = ground arith

-- A configuration that `Validate` accepts has a credential: `GetServicePrincipalToken` does not
-- end with its error "No credentials provided" at it.
pub credential-validate_azure :
    (o : AzureOptions) → validate_azure o ≡ [] → credential o.auth_config ≢ none
unfolding validate_azure validate_azure_auth
credential-validate_azure o h =
    let a = o.auth_config in
    let rest = (append-eq-nil (complain (is_blank o.vault_base_url) _) _ h).1 in
    let rest₂ = (append-eq-nil (complain (is_blank a.cloud) _) _ rest).1 in
    let third = (append-eq-nil (complain (is_blank a.tenant_id) _) _ rest₂).1 in
    usable_credential a (complain-eq-nil _ _ third)

-- What the libraries do for the configuration `c` where they are used: the cloud has an environment
-- with a key vault, the directory has a configuration for a tenant, and the way to a token that is
-- asked for leads to one, for a client with an id and what identifies it.
pub record AzureReady (sdk : AzureSdk) (c : AzureAuthConfig) : Type 0 where
  pub environment :
      is_blank c.cloud ≡ false
      → (env : Environment) × (sdk.environment_from_name c.cloud ≡ ok env)
        × (is_blank env.key_vault_endpoint ≡ false)
  pub oauth_config :
      (endpoint : Text)
      → is_blank c.tenant_id ≡ false
      → (r : Text) × (sdk.new_oauth_config endpoint c.tenant_id ≡ ok r)
  pub identity :
      (resource : Text)
      → c.use_managed_identity_extension ≡ true
      → (endpoint : Text) × (token : ℕ) × (sdk.get_msi_vm_endpoint ≡ ok endpoint)
        × (sdk.token_from_msi endpoint resource ≡ ok token)
  pub secret :
      (config resource : Text)
      → is_blank c.aad_client_id ≡ false
      → is_blank c.aad_client_secret ≡ false
      → (token : ℕ) × (sdk.token_from_secret config c.aad_client_id c.aad_client_secret resource
          ≡ ok token)
  pub certificate :
      (config resource : Text)
      → is_blank c.aad_client_id ≡ false
      → is_blank c.aad_client_cert_path ≡ false
      → is_blank c.aad_client_cert_password ≡ false
      → (d : Text) × (cert : Certificate) × (token : ℕ) × (sdk.read_file c.aad_client_cert_path
          ≡ ok d)
        × (sdk.decode_certificate d c.aad_client_cert_password ≡ ok cert)
        × (cert.is_rsa ≡ true)
        × (sdk.token_from_certificate config c.aad_client_id cert resource ≡ ok token)

valid_parts :
    (o : AzureOptions)
    → validate_azure o ≡ []
    → (is_blank o.auth_config.cloud ≡ false) × (is_blank o.auth_config.tenant_id ≡ false)
unfolding validate_azure validate_azure_auth
valid_parts o h =
    let a = o.auth_config in
    let rest = (append-eq-nil (complain (is_blank o.vault_base_url) _) _ h).1 in
    let (cloud, rest₂) = append-eq-nil (complain (is_blank a.cloud) _) _ rest in
    let (tenant, third) = append-eq-nil (complain (is_blank a.tenant_id) _) _ rest₂ in
    (complain-eq-nil _ _ cloud, complain-eq-nil _ _ tenant)

-- The way that the configuration takes.
credential_cases :
    (c : AzureAuthConfig)
    → credential c ≢ none
    → ((credential c ≡ some managed_identity) × (c.use_managed_identity_extension ≡ true))
      ⊎ (c.use_managed_identity_extension ≡ false)
        × (((credential c ≡ some client_secret) × (is_blank c.aad_client_secret ≡ false))
            ⊎ ((credential c ≡ some client_certificate)
                × (is_blank c.aad_client_cert_path ≡ false)
                × (is_blank c.aad_client_cert_password ≡ false)))
unfolding credential
credential_cases c some_way = elim (Bool-cases c.use_managed_identity_extension) [
  | inl msi ↦ inl (rw msi refl, msi)
  | inr no_msi ↦ inr (
    no_msi,
    elim (Bool-cases (is_blank c.aad_client_secret)) [
      | inr secret ↦ inl (rw (no_msi, secret) refl, secret)
      | inl no_secret ↦ elim (Bool-cases (is_blank c.aad_client_cert_path)) [
        | inl no_path ↦ absurd (some_way (rw (no_msi, no_secret, no_path) refl))
        | inr path ↦ elim (Bool-cases (is_blank c.aad_client_cert_password)) [
          | inl no_password ↦ absurd (some_way (rw (no_msi, no_secret, path, no_password) refl))
          | inr password ↦ inr (rw (no_msi, no_secret, path, password) refl, path, password)
        ]
      ]
    ],
  )
]

certificate_lem :
    (sdk : AzureSdk) (c : AzureAuthConfig) (env : Environment) (resource config : Text) {d : Text}
    {cert : Certificate} {token : ℕ}
    → sdk.read_file c.aad_client_cert_path ≡ ok d
    → sdk.decode_certificate d c.aad_client_cert_password ≡ ok cert
    → cert.is_rsa ≡ true
    → sdk.token_from_certificate config c.aad_client_id cert env.service_management_endpoint
      ≡ ok token
    → token_by sdk c env resource config (some client_certificate) ≡ ok token
unfolding token_by certificate_token decode_pkcs12
certificate_lem sdk c env resource config read decoded rsa made =
    ground (arith, read, decoded, rsa, made)

granted_lem :
    (sdk : AzureSdk) (c : AzureAuthConfig) (env : Environment) (config : Text) (token : ℕ)
    → is_blank c.cloud ≡ false
    → sdk.environment_from_name c.cloud ≡ ok env
    → is_blank env.key_vault_endpoint ≡ false
    → sdk.new_oauth_config env.active_directory_endpoint c.tenant_id ≡ ok config
    → token_by sdk c env (trim_slash env.key_vault_endpoint) config (credential c) ≡ ok token
    → get_key_vault_token sdk c auth_grant_type ≡ ok token
unfolding get_key_vault_token parse_azure_environment get_service_principal_token
granted_lem sdk c env config token cloud found endpoint made granted =
    ground (arith, cloud, found, endpoint, made, granted)

module _ (sdk : AzureSdk) (c : AzureAuthConfig) (ready : AzureReady sdk c)
    (named : c.use_managed_identity_extension ≡ false → is_blank c.aad_client_id ≡ false) where
  token_by-credential :
      (env : Environment) (resource config : Text)
      → credential c ≢ none
      → (token : ℕ) × (token_by sdk c env resource config (credential c) ≡ ok token)
  unfolding token_by
  token_by-credential env resource config some_way = elim (credential_cases c some_way) [
    | inl (way, msi) ↦
        let (endpoint, token, found, made) = ready.identity resource msi in
        (token, rw (way, found) made)
    | inr (no_msi, inl (way, secret)) ↦
        let (token, made) = ready.secret config resource (named no_msi) secret in
        (token, rw way made)
    | inr (no_msi, inr (way, path, password)) ↦
        let (d, cert, token, read, decoded, rsa, made) =
          ready.certificate config env.service_management_endpoint (named no_msi) path password in
        (token, rw way (certificate_lem sdk c env resource config read decoded rsa made))
  ]

-- A configuration that `Validate` accepts comes to a token, if it names a client id unless it uses the
-- managed identity.
pub get_key_vault_token-validate_azure :
    (sdk : AzureSdk) (o : AzureOptions)
    → AzureReady sdk o.auth_config
    → (o.auth_config.use_managed_identity_extension ≡ false
        → is_blank o.auth_config.aad_client_id ≡ false)
    → validate_azure o ≡ []
    → (token : ℕ) × (get_key_vault_token sdk o.auth_config auth_grant_type ≡ ok token)
get_key_vault_token-validate_azure sdk o ready named h =
    let c = o.auth_config in
    let (cloud, tenant) = valid_parts o h in
    let (env, found, endpoint) = ready.environment cloud in
    let (config, made) = ready.oauth_config env.active_directory_endpoint tenant in
    let (token, granted) =
      token_by-credential sdk c ready named env (trim_slash env.key_vault_endpoint) config
        (credential-validate_azure o h) in
    (token, granted_lem sdk c env config token cloud found endpoint made granted)
