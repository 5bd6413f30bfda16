-- ===== src/Worker/Admin.antt =====
-- A Vault server that accepts the configuration of pkg/worker from its root token.
use unsealer.Prelude.{◌≡◌, true, ◌∷◌, false, List}
use unsealer.Text.{Text, text}
use unsealer.Effect.{ok}
use unsealer.Vault.Client.{VaultClient, AuthMount, Request, PayloadValue, InitRequest, InitResponse}
use unsealer.Vault.Auth.Mounts.{new_mounts, in_use, mounted, with_slash, as_listed}
use unsealer.Vault.Contract.{VaultView}
use unsealer.Vault.Auth.Defs.{config_request, config_payload}
use unsealer.Vault.Policy.Defs.{policy_admin, role_request, role_payload}
use unsealer.Worker.Options.{WorkerOptions}

-- What the configuration needs of the server: the token of the client, the root token, and the
-- mounted auth methods.
pub record AdminView : Type 0 where
  pub client_token : Text
  pub root_token : Text
  pub mounts : List AuthMount

-- The requests come to an unsealed server with its root token.
pub record Authorized (vault : VaultView) (x : AdminView) : Type 0 where
  pub opened : vault.sealed ≡ false
  pub as_root : x.client_token ≡ x.root_token

-- The two requests to the Kubernetes method, with their payloads.
pub data Configures (o : WorkerOptions) : Request → Type 0 where
  config : Configures o (record config_request { body = config_payload o.authenticator_options })
  role : Configures o (record (role_request o.policy_manager_options) {
    body = role_payload o.policy_manager_options;
  })

-- A server that issues a root token when it is initialized, and accepts the configuration of the
-- options `o` from a client that has this token: auth methods are listed, and one is enabled at a path
-- that is not in use; the policy is written; the two requests to the Kubernetes method are accepted
-- where it is mounted. From a client with another token nothing need be accepted.
pub record AdminAvailable {V : Type 0} (c : VaultClient V) (view : V → VaultView)
    (admin : V → AdminView) (o : WorkerOptions) : Type 0 where
  pub init_admin :
      (q : InitRequest) (v : V) {resp : InitResponse}
      → (view v).initialized ≡ false
      → (c.init q v).0 ≡ ok resp
      → ((admin (c.init q v).1).root_token ≡ resp.root_token)
        × ((admin (c.init q v).1).mounts ≡ new_mounts)
  pub seal_status_admin : (v : V) → admin (c.seal_status v).1 ≡ admin v
  pub unseal_admin : (k : Text) (v : V) → admin (c.unseal k v).1 ≡ admin v
  pub set_token_admin :
      (token : Text) (v : V)
      → (view (c.set_token token v) ≡ view v)
        × (admin (c.set_token token v) ≡ record {
          client_token = token;
          root_token = (admin v).root_token;
          mounts = (admin v).mounts;
        })
  pub list_auth_answers :
      (v : V)
      → Authorized (view v) (admin v)
      → ((c.list_auth v).0 ≡ ok (admin v).mounts)
        × (view (c.list_auth v).1 ≡ view v)
        × (admin (c.list_auth v).1 ≡ admin v)
  pub enable_auth_answers :
      (path : Text) (v : V)
      → Authorized (view v) (admin v)
      → in_use (with_slash path) (admin v).mounts ≡ false
      → ((c.enable_auth path (text "kubernetes") v).0 ≡ ok tt)
        × (view (c.enable_auth path (text "kubernetes") v).1 ≡ view v)
        × (admin (c.enable_auth path (text "kubernetes") v).1 ≡ record {
          client_token = (admin v).client_token;
          root_token = (admin v).root_token;
          mounts = as_listed path (text "kubernetes") ∷ (admin v).mounts;
        })
  pub put_policy_answers :
      (v : V)
      → Authorized (view v) (admin v)
      → ((c.put_policy o.policy_manager_options.name policy_admin v).0 ≡ ok tt)
        × (view (c.put_policy o.policy_manager_options.name policy_admin v).1 ≡ view v)
        × (admin (c.put_policy o.policy_manager_options.name policy_admin v).1 ≡ admin v)
  pub body_answers :
      (r : Request) (body : List (Text × PayloadValue))
      → c.set_json_body r body ≡ ok (record r { body = body })
  pub request_answers :
      (r : Request) (v : V)
      → Configures o r
      → Authorized (view v) (admin v)
      → mounted (text "kubernetes/") (text "kubernetes") (admin v).mounts ≡ true
      → ((c.raw_request r v).0 ≡ ok tt)
        × (view (c.raw_request r v).1 ≡ view v)
        × (admin (c.raw_request r v).1 ≡ admin v)
