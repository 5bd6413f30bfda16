-- ===== src/Worker/Configures.antt =====
-- `configureVault` of pkg/worker at a server that accepts the requests of the configuration.
use unsealer.Prelude.{◌≡◌, ◌∙◌, refl, sym, ap, true, ◌∷◌, false, some, List, if◌then◌else◌}
use unsealer.Text.{Text, text, text_eq}
use unsealer.Effect.{ok, Call, pure, wrapping, ◌>>◌}
use unsealer.Effect.Succeeds.{Succeeds, Succeeds-wrapping, Succeeds-bind, bind_steps}
use unsealer.Vault.Client.{VaultClient, AuthMount, Request, PayloadValue}
use unsealer.Vault.Auth.Mounts.{new_mounts, in_use, mounted, with_slash, as_listed}
use unsealer.Vault.World.{World, on_store, on_vault}
use unsealer.Vault.Contract.{VaultView}
use unsealer.Vault.Auth.Defs.{
  ensure_auth, ensure_with, configure_auth, send, kubernetes_enabled, kubernetes_auth_path,
  kubernetes_auth_type, config_request, config_payload,
}
use unsealer.Vault.Policy.Defs.{
  ensure_policy_and_policy_binding, policy_admin, role_request, role_payload,
}
use unsealer.Vault.Unseal.Defs.{Unsealer}
use unsealer.Worker.Options.{WorkerOptions}
use unsealer.Worker.Configure.{authenticator, use_token, configure_vault}
use unsealer.Worker.Admin.{AdminView, Authorized, Configures, config, role, AdminAvailable}

-- The server at which the method has been enabled.
abbrev enabled : AdminView → AdminView
enabled x = record {
  client_token = x.client_token;
  root_token = x.root_token;
  mounts = as_listed kubernetes_auth_path kubernetes_auth_type ∷ x.mounts;
}

not_enabled : kubernetes_enabled new_mounts ≡ false
unfolding kubernetes_enabled text text_eq
not_enabled = refl

free_path : in_use (with_slash kubernetes_auth_path) new_mounts ≡ false
unfolding in_use with_slash text text_eq
free_path = refl

mounted-enabled :
    (x : AdminView) → mounted (text "kubernetes/") (text "kubernetes") (enabled x).mounts ≡ true
unfolding mounted with_slash text text_eq
mounted-enabled x = refl

module _ {V : Type 0} (c : VaultClient V) (view : V → VaultView) (admin : V → AdminView)
    (o : WorkerOptions) (up : AdminAvailable c view admin o) (y : VaultView) (x : AdminView)
    (may : Authorized y x) where
  abbrev At : V → Type 0
  At v = (view v ≡ y) × (admin v ≡ x)

  may_now : (v : V) → At v → Authorized (view v) (admin v)
  may_now v (at_y, at_x) = rw (at_y, at_x) may

  -- The method is not there yet.
  ensure_with_enables :
      (v : V)
      → At v
      → x.mounts ≡ new_mounts
      → ((ensure_with c v).0 ≡ ok tt)
        × (view (ensure_with c v).1 ≡ y)
        × (admin (ensure_with c v).1 ≡ enabled x)
  unfolding ensure_with
  ensure_with_enables v at bare =
      let v₁ = (c.list_auth v).1 in
      let (listed, view₁, admin₁) = up.list_auth_answers v (may_now v at) in
      let at₁ : At v₁ = (view₁ ∙ at.0, admin₁ ∙ at.1) in
      let now : (admin v₁).mounts ≡ new_mounts = ap (λ (z : AdminView). z.mounts) at₁.1 ∙ bare in
      let rest : List AuthMount → Call V Unit = λ mounts.
        if kubernetes_enabled mounts
        then pure tt
        else c.enable_auth kubernetes_auth_path kubernetes_auth_type in
      let missing : kubernetes_enabled (admin v).mounts ≡ false =
        ap (λ z. kubernetes_enabled z.mounts) at.1 ∙ ap kubernetes_enabled bare ∙ not_enabled in
      let free : in_use (with_slash kubernetes_auth_path) (admin v₁).mounts ≡ false =
        ap (in_use (with_slash kubernetes_auth_path)) now ∙ free_path in
      let (done, view₂, admin₂) =
        up.enable_auth_answers kubernetes_auth_path v₁ (may_now v₁ at₁) free in
      rw (bind_steps c.list_auth rest v listed, missing)
        (done, view₂ ∙ at₁.0, admin₂ ∙ ap enabled at₁.1)

  module _ (there : mounted (text "kubernetes/") (text "kubernetes") x.mounts ≡ true) where
    send-Succeeds :
        (r : Request) (body : List (Text × PayloadValue))
        → Configures o (record r { body = body })
        → Succeeds At (send c r body)
    unfolding send
    send-Succeeds r body which = record {
      at = λ v h.
          let there_now : mounted (text "kubernetes/") (text "kubernetes") (admin v).mounts ≡ true =
            ap (λ z. mounted (text "kubernetes/") (text "kubernetes") z.mounts) h.1 ∙ there in
          let (done, view₁, admin₁) =
            up.request_answers (record r { body = body }) v which (may_now v h) there_now in
          rw (up.body_answers r body, send) ((tt, done), (view₁ ∙ h.0, admin₁ ∙ h.1));
    }

    policy-Succeeds :
        Succeeds At (ensure_policy_and_policy_binding (some c) (some o.policy_manager_options))
    unfolding ensure_policy_and_policy_binding
    policy-Succeeds =
        Succeeds-bind (c.put_policy o.policy_manager_options.name policy_admin) _
          (record {
            at = λ v h.
                let (done, view₁, admin₁) = up.put_policy_answers v (may_now v h) in
                ((tt, done), (view₁ ∙ h.0, admin₁ ∙ h.1));
          })
          λ _.
            send-Succeeds (role_request o.policy_manager_options)
              (role_payload o.policy_manager_options) role

module _ {K V : Type 0} (u : Unsealer K V) (o : WorkerOptions) (view : V → VaultView)
    (admin : V → AdminView) (up : AdminAvailable u.cl view admin o) where
  on_vault-Succeeds :
      {A : Type 0} (P : V → Type 0) (m : Call V A)
      → Succeeds P m
      → Succeeds (λ (w : World K V). P w.vault) (on_vault m)
  on_vault-Succeeds P m g = record { at = λ w h. g.at w.vault h }

  abbrev key_store_read : Text → Call (World K V) Text
  key_store_read id = wrapping (text "failed to get the root token") (on_store (u.key_store.get id))

  abbrev ensures : Call (World K V) Unit
  ensures =
      wrapping (text "failed to enable kubernetes auth")
        (on_vault (ensure_auth (authenticator o u.cl u.key_store)))

  -- What follows once the method is enabled.
  abbrev last_requests : Call (World K V) Unit
  last_requests =
      wrapping (text "failed to configure kubernetes auth")
        (on_vault (configure_auth (authenticator o u.cl u.key_store)))
      >> wrapping (text "failed to write policy and policy binding for policy controller")
          (on_vault (ensure_policy_and_policy_binding (some u.cl) (some o.policy_manager_options)))

  -- What follows the read of the root token.
  abbrev requests : Text → Call (World K V) Unit
  requests root_token =
      on_vault (use_token o u.cl u.key_store root_token) >> (ensures >> last_requests)

  last_requests-Succeeds :
      (y : VaultView) (x : AdminView)
      → Authorized y x
      → mounted (text "kubernetes/") (text "kubernetes") x.mounts ≡ true
      → Succeeds (λ (w : World K V). (view w.vault ≡ y) × (admin w.vault ≡ x)) last_requests
  unfolding configure_auth
  last_requests-Succeeds y x may there =
      let P : V → Type 0 = λ v. (view v ≡ y) × (admin v ≡ x) in
      Succeeds-bind
        (wrapping (text "failed to configure kubernetes auth")
          (on_vault (configure_auth (authenticator o u.cl u.key_store))))
        _
        (Succeeds-wrapping _ _ (
          on_vault-Succeeds P (configure_auth (authenticator o u.cl u.key_store)) (
            send-Succeeds u.cl view admin o up y x may there config_request
              (config_payload o.authenticator_options) config)))
        λ _.
          Succeeds-wrapping (text "failed to write policy and policy binding for policy controller")
            _ (on_vault-Succeeds P _ (policy-Succeeds u.cl view admin o up y x may there))

  requests_succeed :
      (token : Text) (w : World K V)
      → (view w.vault).sealed ≡ false
      → (admin w.vault).root_token ≡ token
      → (admin w.vault).mounts ≡ new_mounts
      → ((requests token w).0 ≡ ok tt) × (view (requests token w).1.vault ≡ view w.vault)
  unfolding ensure_auth
  requests_succeed token w opened root bare =
      let x : AdminView = record {
        client_token = token;
        root_token = (admin w.vault).root_token;
        mounts = (admin w.vault).mounts;
      } in
      let y = view w.vault in
      let may : Authorized y x = record { opened = opened; as_root = sym root } in
      let may₂ : Authorized y (enabled x) = record { opened = opened; as_root = sym root } in
      let v₁ = u.cl.set_token token w.vault in
      let w₁ : World K V = record w { vault = v₁ } in
      let (ensured, view₂, admin₂) =
        ensure_with_enables u.cl view admin o up y x may v₁ (up.set_token_admin token w.vault)
          bare in
      let done : (ensures w₁).0 ≡ ok tt = rw ensured refl in
      let ((_, returns), kept) =
        (last_requests-Succeeds y (enabled x) may₂ (mounted-enabled x)).at (ensures w₁).1
          (view₂, admin₂) in
      rw (bind_steps ensures (λ _. last_requests) w₁ done) (returns, kept.0)

  -- At an unsealed server with its first mounts, where the token that is read is the root token.
  pub configure_vault_succeeds :
      (id token : Text) (w : World K V)
      → (view w.vault).sealed ≡ false
      → (admin w.vault).root_token ≡ token
      → (admin w.vault).mounts ≡ new_mounts
      → (u.key_store.get id w.store).0 ≡ ok token
      → ((configure_vault o u.cl u.key_store id w).0 ≡ ok tt)
        × (view (configure_vault o u.cl u.key_store id w).1.vault ≡ view w.vault)
  unfolding configure_vault
  configure_vault_succeeds id token w opened root bare found =
      let read : (key_store_read id w).0 ≡ ok token = rw found refl in
      rw (bind_steps (key_store_read id) requests w read)
        (requests_succeed token (key_store_read id w).1 opened root bare)
