-- ===== src/Worker/Contract.antt =====
-- What pkg/worker relies on of the Vault server's initialization.
use unsealer.Prelude.{◌≡◌, Bool, true}
use unsealer.Text.{Text}
use unsealer.Effect.{ok}
use unsealer.Effect.Keeps.{Keeps}
use unsealer.Vault.Client.{VaultClient, Request}

abbrev pub Initialized : {V : Type 0} → (V → Bool) → V → Type 0
Initialized initialized v = initialized v ≡ true

pub record StaysInitialized {V : Type 0} (c : VaultClient V) (initialized : V → Bool) : Type 0 where
  pub status_true :
      (v : V) {b : Bool} → (c.init_status v).0 ≡ ok b → initialized v ≡ true → b ≡ true
  pub init_status_keeps : Keeps (Initialized initialized) c.init_status
  pub seal_status_keeps : Keeps (Initialized initialized) c.seal_status
  pub unseal_keeps : (k : Text) → Keeps (Initialized initialized) (c.unseal k)
  pub list_auth_keeps : Keeps (Initialized initialized) c.list_auth
  pub enable_auth_keeps :
      (path kind : Text) → Keeps (Initialized initialized) (c.enable_auth path kind)
  pub put_policy_keeps :
      (name rules : Text) → Keeps (Initialized initialized) (c.put_policy name rules)
  pub raw_request_keeps : (r : Request) → Keeps (Initialized initialized) (c.raw_request r)
  pub set_token_keeps :
      (token : Text) (v : V) → initialized v ≡ true → initialized (c.set_token token v) ≡ true
