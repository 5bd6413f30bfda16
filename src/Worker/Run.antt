-- ===== src/Worker/Run.antt =====
-- `Run` of pkg/worker/worker.go up to its loop, and the command of pkg/cmds/run.go.
use unsealer.Prelude.{◌≡◌, refl, List, [], ◌∷◌, arith, inl, inr}
use unsealer.Text.{text}
use unsealer.Effect.{Error, wrapped, Result, ok, err, Result-cases}
use unsealer.Validation.{complain, append-eq-nil}
use unsealer.Kv.{Service}
use unsealer.Vault.Client.{VaultClient}
use unsealer.Vault.Connection.{TlsConfig, Libraries, new_vault_client}
use unsealer.Vault.Unseal.Defs.{Unsealer, new}
use unsealer.Vault.Unseal.Options.{validate_unseal, AreValid, validate_unseal-eq-nil}
use unsealer.Worker.Options.{WorkerOptions, validate_worker, invalid_mode}
use unsealer.Worker.Service.{Backends, get_kv_service}

module _ {K V : Type 0} (b : Backends K) (lib : Libraries V) (c : TlsConfig) where
  -- What the loop runs on. The source calls `unseal.New` at the head of the loop and only logs its
  -- error, which it never returns.
  unfoldable pub prepare : WorkerOptions → Result (Unsealer K V)
  unfolding get_kv_service new_vault_client new
  prepare o = elim (get_kv_service b o) [
    | err e ↦ err (wrapped (text "failed to create kv service") e)
    | ok key_store ↦ elim (new_vault_client lib c o.address o.insecure_skip_tls_verify o.ca_cert) [
      | err e ↦ err (wrapped (text "failed to create vault api client") e)
      | ok vc ↦ new key_store vc o.unsealer_options
    ]
  ]

  abbrev pub run_if : (List Error → Error) → WorkerOptions → List Error → Result (Unsealer K V)
  run_if aggregate o [] = prepare o
  run_if aggregate o (e ∷ errs) = err (aggregate (e ∷ errs))

  -- `RunE`: the options are validated first; `aggregate` makes one error of many.
  unfoldable pub run_command : (List Error → Error) → WorkerOptions → Result (Unsealer K V)
  unfolding validate_worker prepare
  run_command aggregate o = run_if aggregate o (validate_worker o)

  -- Where the key store and the client are made, they are what the unsealer uses.
  pub prepare_ok :
      (o : WorkerOptions) {s : Service K} {vc : VaultClient V}
      → get_kv_service b o ≡ ok s
      → new_vault_client lib c o.address o.insecure_skip_tls_verify o.ca_cert ≡ ok vc
      → prepare o ≡ ok (record { key_store = s; cl = vc; config = o.unsealer_options })
  unfolding prepare new
  prepare_ok o p q = ground (arith, p, q)

  prepare_config :
      (o : WorkerOptions) {u : Unsealer K V} → prepare o ≡ ok u → u.config ≡ o.unsealer_options
  unfolding prepare new
  prepare_config o {u} h = elim (Result-cases (get_kv_service b o)) [
    | inl (s, p) ↦
        elim (Result-cases
          (new_vault_client lib c o.address o.insecure_skip_tls_verify o.ca_cert)) [
            | inl (vc, q) ↦ ground arith
            | inr (e, q) ↦ absurd (ground arith)
          ]
    | inr (e, p) ↦ absurd (ground arith)
  ]

  pub run_if_ok :
      (aggregate : List Error → Error) (o : WorkerOptions) (errs : List Error) {u : Unsealer K V}
      → run_if aggregate o errs ≡ ok u
      → (errs ≡ []) × (prepare o ≡ ok u)
  run_if_ok aggregate o [] h = (refl, h)
  run_if_ok aggregate o (e ∷ errs) h = absurd (cc h)

  unseal_part :
      (o : WorkerOptions) → validate_worker o ≡ [] → validate_unseal o.unsealer_options ≡ []
  unfolding validate_worker
  unseal_part o h =
      (append-eq-nil (validate_unseal o.unsealer_options) _
        (append-eq-nil (complain (invalid_mode o) _) _ h).1).0

  -- If the command comes to its loop, then the unsealer of the loop has the options of the command,
  -- and their threshold is positive and at most their number of shares.
  pub run_command-AreValid :
      (aggregate : List Error → Error) (o : WorkerOptions) {u : Unsealer K V}
      → run_command aggregate o ≡ ok u
      → (u.config ≡ o.unsealer_options) × AreValid u.config
  unfolding run_command
  run_command-AreValid aggregate o {u} h =
      let (valid, prepared) = run_if_ok aggregate o (validate_worker o) h in
      let same : u.config ≡ o.unsealer_options = prepare_config o prepared in
      (same, rw same ((validate_unseal-eq-nil o.unsealer_options).0 (unseal_part o valid)))
