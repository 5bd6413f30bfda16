-- ===== src/Vault/Client.antt =====
-- The operations of github.com/hashicorp/vault/api's client that the program calls, over the state
-- `V` of the Vault server and of the client's token. The package is not part of this program: it is
-- a parameter of every definition that uses it.
use unsealer.Prelude.{ℕ, Bool, List}
use unsealer.Prelude.Int.{ℤ}
use unsealer.Text.{Text}
use unsealer.Effect.{Result, Call}

pub record SealStatus : Type 0 where
  pub sealed : Bool
  pub progress : ℕ

pub record InitRequest : Type 0 where
  pub secret_shares : ℤ
  pub secret_threshold : ℤ

pub record InitResponse : Type 0 where
  pub keys : List Text
  pub root_token : Text

-- A value of a `map[string]interface{}` that the program sends.
pub data PayloadValue : Type 0 where
  string : Text → PayloadValue
  strings : List Text → PayloadValue

pub record Request : Type 0 where
  pub method : Text
  pub path : Text
  pub body : List (Text × PayloadValue)

pub record AuthMount : Type 0 where
  pub path : Text
  pub kind : Text

pub record VaultClient (V : Type 0) : Type 0 where
  -- Sys()
  pub seal_status : Call V SealStatus
  pub init_status : Call V Bool
  pub init : InitRequest → Call V InitResponse
  pub unseal : Text → Call V SealStatus
  pub list_auth : Call V (List AuthMount)
  pub enable_auth : Text → Text → Call V Unit
  pub put_policy : Text → Text → Call V Unit
  -- the client itself
  pub set_token : Text → V → V
  pub set_json_body : Request → List (Text × PayloadValue) → Result Request
  pub raw_request : Request → Call V Unit
