-- ===== src/Worker/Administers.antt =====
-- The requests of `configureVault` of pkg/worker, and what they keep.
use unsealer.Prelude.{some, List, arith, inl, inr}
use unsealer.Text.{Text, text}
use unsealer.Effect.{Call, wrapping, Result-cases}
use unsealer.Effect.Keeps.{Keeps, Keeps-pure, Keeps-wrapping, Keeps-if, Keeps-bind}
use unsealer.Kv.{Service}
use unsealer.Vault.Client.{VaultClient, Request, PayloadValue}
use unsealer.Vault.World.{World, on_store, on_vault}
use unsealer.Vault.Auth.Defs.{
  ensure_auth, ensure_with, configure_auth, send, kubernetes_enabled, kubernetes_auth_path,
  kubernetes_auth_type, config_request, config_payload,
}
use unsealer.Vault.Policy.Options.{PolicyManagerOptions}
use unsealer.Vault.Policy.Defs.{
  ensure_policy_and_policy_binding, policy_admin, role_request, role_payload,
}
use unsealer.Worker.Options.{WorkerOptions}
use unsealer.Worker.Configure.{authenticator, use_token, configure_vault}

-- A predicate on the server's state that the requests of the configuration keep.
pub record Administers {V : Type 0} (c : VaultClient V) (P : V → Type 0) : Type 0 where
  pub list_auth_keeps : Keeps P c.list_auth
  pub enable_auth_keeps : (path kind : Text) → Keeps P (c.enable_auth path kind)
  pub put_policy_keeps : (name rules : Text) → Keeps P (c.put_policy name rules)
  pub raw_request_keeps : (r : Request) → Keeps P (c.raw_request r)
  pub set_token_keeps : (token : Text) (v : V) → P v → P (c.set_token token v)

module _ {V : Type 0} (c : VaultClient V) (P : V → Type 0) (admin : Administers c P) where
  Keeps-send : (r : Request) (payload : List (Text × PayloadValue)) → Keeps P (send c r payload)
  unfolding send
  Keeps-send r payload = record {
    at = λ v h. elim (Result-cases (c.set_json_body r payload)) [
      | inl (request, p) ↦ ground (arith, (admin.raw_request_keeps request).at v h)
      | inr (e, p) ↦ ground arith
    ];
  }

  Keeps-ensure_with : Keeps P (ensure_with c)
  unfolding ensure_with
  Keeps-ensure_with = Keeps-bind c.list_auth _ admin.list_auth_keeps λ mounts.
      Keeps-if (kubernetes_enabled mounts) _ _ (Keeps-pure tt)
        (admin.enable_auth_keeps kubernetes_auth_path kubernetes_auth_type)

  Keeps-policy :
      (o : PolicyManagerOptions) → Keeps P (ensure_policy_and_policy_binding (some c) (some o))
  unfolding ensure_policy_and_policy_binding
  Keeps-policy o =
      Keeps-bind (c.put_policy o.name policy_admin) _ (admin.put_policy_keeps o.name policy_admin)
        λ _. Keeps-send (role_request o) (role_payload o)

module _ {K V : Type 0} (c : VaultClient V) (key_store : Service K) (P : V → Type 0)
    (Q : K → Type 0) (admin : Administers c P)
    (reads : (key : Text) → Keeps Q (key_store.get key)) where
  abbrev Both : World K V → Type 0
  Both w = P w.vault × Q w.store

  Keeps-on_vault : {A : Type 0} (m : Call V A) → Keeps P m → Keeps Both (on_vault {K = K} m)
  Keeps-on_vault m k = record { at = λ w h. (k.at w.vault h.0, h.1) }

  Keeps-get : (key : Text) → Keeps Both (on_store {V = V} (key_store.get key))
  Keeps-get key = record { at = λ w h. (h.0, (reads key).at w.store h.1) }

  pub Keeps-configure_vault :
      (o : WorkerOptions) (key : Text) → Keeps Both (configure_vault o c key_store key)
  unfolding configure_vault ensure_auth configure_auth
  Keeps-configure_vault o key =
      let k = authenticator o c key_store in
      Keeps-bind _ _ (Keeps-wrapping _ _ (Keeps-get key)) λ token.
        Keeps-bind (on_vault (use_token o c key_store token)) _
          (Keeps-on_vault (use_token o c key_store token)
            (record { at = admin.set_token_keeps token }))
          λ _.
            Keeps-bind
              (wrapping (text "failed to enable kubernetes auth") (on_vault (ensure_auth k))) _
              (Keeps-wrapping _ _ (Keeps-on_vault (ensure_auth k) (Keeps-ensure_with c P admin)))
              λ _.
                Keeps-bind
                  (wrapping (text "failed to configure kubernetes auth")
                    (on_vault (configure_auth k)))
                  _
                  (Keeps-wrapping _ _ (
                    Keeps-on_vault (configure_auth k) (
                      Keeps-send c P admin config_request
                        (config_payload o.authenticator_options))))
                  λ _.
                    Keeps-wrapping
                      (text "failed to write policy and policy binding for policy controller") _
                      (Keeps-on_vault _ (Keeps-policy c P admin o.policy_manager_options))
