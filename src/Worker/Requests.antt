-- ===== src/Worker/Requests.antt =====
-- What a configuration asks of the Vault server, and in which order.
use unsealer.Prelude.{◌≡◌, some, List, ◌∷◌, arith, inl, inr, if◌then◌else◌}
use unsealer.Text.{Text}
use unsealer.Effect.{ok, Result-cases}
use unsealer.Kv.{Service}
use unsealer.Vault.Client.{VaultClient, Request, PayloadValue, AuthMount}
use unsealer.Vault.World.{World}
use unsealer.Vault.Auth.Defs.{
  ensure_auth, ensure_with, configure_auth, send, kubernetes_enabled, kubernetes_auth_path,
  kubernetes_auth_type, config_request, config_payload,
}
use unsealer.Vault.Policy.Options.{PolicyManagerOptions}
use unsealer.Vault.Policy.Defs.{
  ensure_policy_and_policy_binding, policy_admin, role_request, role_payload,
}
use unsealer.Worker.Options.{WorkerOptions}
use unsealer.Worker.Configure.{configure_vault}

pub data Event : Type 0 where
  token : Text → Event
  enabled : Text → Text → Event
  policy : Text → Text → Event
  request : Request → Event

-- The documented effects of the calls, over a log of what the server was asked for, the last event
-- first, and the auth methods that are enabled.
pub record LogContract {V : Type 0} (c : VaultClient V) (log : V → List Event)
    (mounts : V → List AuthMount) : Type 0 where
  pub token_logged : (t : Text) (v : V) → log (c.set_token t v) ≡ token t ∷ log v
  pub token_keeps : (t : Text) (v : V) → mounts (c.set_token t v) ≡ mounts v
  pub list_ok : (v : V) {l : List AuthMount} → (c.list_auth v).0 ≡ ok l → l ≡ mounts v
  pub list_keeps : (v : V) → log (c.list_auth v).1 ≡ log v
  pub enable_ok :
      (path kind : Text) (v : V)
      → (c.enable_auth path kind v).0 ≡ ok tt
      → log (c.enable_auth path kind v).1 ≡ enabled path kind ∷ log v
  pub put_policy_ok :
      (name rules : Text) (v : V)
      → (c.put_policy name rules v).0 ≡ ok tt
      → log (c.put_policy name rules v).1 ≡ policy name rules ∷ log v
  pub body_ok :
      (r : Request) (body : List (Text × PayloadValue)) {s : Request}
      → c.set_json_body r body ≡ ok s
      → s ≡ record r { body = body }
  pub request_ok :
      (r : Request) (v : V)
      → (c.raw_request r v).0 ≡ ok tt
      → log (c.raw_request r v).1 ≡ request r ∷ log v

-- The auth method is enabled if it was not.
abbrev pub enabling : List AuthMount → List Event → List Event
enabling mounts log =
    if kubernetes_enabled mounts
    then log
    else enabled kubernetes_auth_path kubernetes_auth_type ∷ log

module _ {V : Type 0} (c : VaultClient V) (log : V → List Event) (mounts : V → List AuthMount)
    (server : LogContract c log mounts) where
  send_ok :
      (r : Request) (body : List (Text × PayloadValue)) (v : V)
      → (send c r body v).0 ≡ ok tt
      → log (send c r body v).1 ≡ request (record r { body = body }) ∷ log v
  unfolding send
  send_ok r body v h = elim (Result-cases (c.set_json_body r body)) [
    | inl (s, p) ↦ ground (arith, server.body_ok r body p, server.request_ok s v)
    | inr (e, p) ↦ absurd (ground arith)
  ]

  ensure_ok :
      (v : V) → (ensure_with c v).0 ≡ ok tt → log (ensure_with c v).1 ≡ enabling (mounts v) (log v)
  unfolding ensure_with
  ensure_ok v h = elim (Result-cases (c.list_auth v).0) [
    | inl (l, p) ↦ ground (
      arith,
      server.list_ok v p,
      server.list_keeps v,
      server.enable_ok kubernetes_auth_path kubernetes_auth_type (c.list_auth v).1,
    )
    | inr (e, p) ↦ absurd (ground arith)
  ]

  policy_ok :
      (o : PolicyManagerOptions) (v : V)
      → (ensure_policy_and_policy_binding (some c) (some o) v).0 ≡ ok tt
      → log (ensure_policy_and_policy_binding (some c) (some o) v).1
        ≡ request (record (role_request o) { body = role_payload o })
          ∷ policy o.name policy_admin
          ∷ log v
  unfolding ensure_policy_and_policy_binding
  policy_ok o v h = elim (Result-cases (c.put_policy o.name policy_admin v).0) [
    | inl (done, p) ↦ ground (
      arith,
      server.put_policy_ok o.name policy_admin v,
      send_ok (role_request o) (role_payload o) (c.put_policy o.name policy_admin v).1,
    )
    | inr (e, p) ↦ absurd (ground arith)
  ]

  module _ {K : Type 0} (o : WorkerOptions) (key_store : Service K) where
    -- If `configureVault` returns without an error, then it has read a root token and asked the
    -- server for these things in this order: to use that token, to enable the Kubernetes auth
    -- method if it was not enabled, to take its configuration, to store the policy, and to store
    -- the role of the policy controller.
    pub configure_vault_requests :
        (id : Text) (w : World K V)
        → (configure_vault o c key_store id w).0 ≡ ok tt
        → (root : Text) × ((key_store.get id w.store).0 ≡ ok root)
          × (log (configure_vault o c key_store id w).1.vault
              ≡ request (record (role_request o.policy_manager_options) {
                body = role_payload o.policy_manager_options;
              })
                ∷ policy o.policy_manager_options.name policy_admin
                ∷ request (record config_request { body = config_payload o.authenticator_options })
                ∷ enabling (mounts w.vault) (token root ∷ log w.vault))
    unfolding configure_vault ensure_auth configure_auth
    configure_vault_requests id w h = elim (Result-cases (key_store.get id w.store).0) [
      | inl (root, p) ↦
          let v₁ = c.set_token root w.vault in
          elim (Result-cases (ensure_with c v₁).0) [
            | inl (done₁, q₁) ↦
                let v₂ = (ensure_with c v₁).1 in
                let body = config_payload o.authenticator_options in
                elim (Result-cases (send c config_request body v₂).0) [
                  | inl (done₂, q₂) ↦
                      let v₃ = (send c config_request body v₂).1 in
                      (
                        root,
                        p,
                        ground (
                          arith,
                          server.token_logged root w.vault,
                          server.token_keeps root w.vault,
                          ensure_ok v₁ q₁,
                          send_ok config_request body v₂ q₂,
                          policy_ok o.policy_manager_options v₃,
                        ),
                      )
                  | inr (e, q₂) ↦ absurd (ground arith)
                ]
            | inr (e, q₁) ↦ absurd (ground arith)
          ]
      | inr (e, p) ↦ absurd (ground arith)
    ]
