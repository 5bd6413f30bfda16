-- ===== src/Vault/Connection.antt =====
-- pkg/vault/vault.go, over net/url, crypto/x509 and the client's constructor.
use unsealer.Prelude.{
  ◌≡◌, ◌||◌, [], Bool, true, false, Option, none, some, ◌++◌, if◌then◌else◌, arith,
}
use unsealer.Text.{Text, text}
use unsealer.Effect.{Error, plain, wrapped, Result, ok, err, wrap_result}
use unsealer.Validation.{is_blank}
use unsealer.Vault.Client.{VaultClient}

-- The fields of `tls.Config` that the program sets; `root_cas` is the parsed bundle.
pub record TlsConfig : Type 0 where
  pub insecure_skip_verify : Bool
  pub root_cas : Option Text
  pub server_name : Text

-- The libraries: the host name of a URL, and the certificates of PEM data (`none` if there are
-- none), and the client for an address.
pub record Libraries (V : Type 0) : Type 0 where
  pub url_hostname : Text → Result Text
  pub certs_from_pem : Text → Option Text
  pub new_client : Text → TlsConfig → Result (VaultClient V)

abbrev bad_bundle : Error
bad_bundle = plain (text "error loading CA File: couldn't parse PEM data in CA bundle")

module _ {V : Type 0} (lib : Libraries V) where
  abbrev pub get_host_name : Text → Result Text
  get_host_name addr = wrap_result [] (lib.url_hostname addr)

  -- The trust settings, over the configuration that the client starts with.
  unfoldable pub trust : TlsConfig → Bool → Text → Result TlsConfig
  trust c true ca_cert = ok (record c { insecure_skip_verify = true })
  trust c false ca_cert =
      if is_blank ca_cert
      then ok (record c { insecure_skip_verify = true })
      else elim (lib.certs_from_pem ca_cert) [
        | none ↦ err bad_bundle
        | some pool ↦ ok (record c { root_cas = some pool })
      ]

  unfoldable pub tls_config : TlsConfig → Text → Bool → Text → Result TlsConfig
  unfolding trust
  tls_config c addr insecure ca_cert = elim (trust c insecure ca_cert) [
    | err e ↦ err e
    | ok trusted ↦ elim (get_host_name addr) [
      | err e ↦ err (wrapped (text "failed to get hostname from url " ++ addr) e)
      | ok host ↦ ok (record trusted { server_name = host })
    ]
  ]

  unfoldable pub new_vault_client : TlsConfig → Text → Bool → Text → Result (VaultClient V)
  unfolding tls_config
  new_vault_client c addr insecure ca_cert = elim (tls_config c addr insecure ca_cert) [
    | err e ↦ err e
    | ok config ↦ lib.new_client addr config
  ]

  -- From a configuration that verifies, the one that `NewVaultClient` makes skips the verification
  -- exactly if it was told to or was given no certificate, and it otherwise trusts the certificates
  -- of the bundle that it was given.
  pub tls_config_verifies :
      (c : TlsConfig) (addr : Text) (insecure : Bool) (ca_cert : Text) {r : TlsConfig}
      → c.insecure_skip_verify ≡ false
      → tls_config c addr insecure ca_cert ≡ ok r
      → (r.insecure_skip_verify ≡ (insecure || is_blank ca_cert))
        × (r.insecure_skip_verify ≡ false → r.root_cas ≡ lib.certs_from_pem ca_cert)
  unfolding tls_config trust
  tls_config_verifies c addr true ca_cert start made = (ground arith, λ verifies. ground arith)
  tls_config_verifies c addr false ca_cert start made = (ground arith, λ verifies. ground arith)
