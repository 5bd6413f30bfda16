-- ===== src/Vault/Unseal/Defs.antt =====
-- pkg/vault/unseal/vault.go and the options of pkg/vault/unseal/options.go.
use unsealer.Prelude.{
  ℕ, zero, suc, Bool, true, false, not, Option, none, some, List, [], ◌∷◌, ◌++◌, ◌==◌,
  if◌then◌else◌,
}
use unsealer.Prelude.Int.{ℤ, pos, negsuc}
use unsealer.Text.{Text, text}
use unsealer.Effect.{Error, plain, Result, ok, err, Call, pure, raise, wrapping, ◌>>=◌, ◌>>◌}
use unsealer.Kv.{Service, is_not_found}
use unsealer.Vault.Keys.{unseal_key_id, root_token_id, test_key}
use unsealer.Vault.Client.{VaultClient, InitRequest, InitResponse}
use unsealer.Vault.World.{World, on_store, on_vault}

pub record UnsealOptions : Type 0 where
  pub key_prefix : Text
  pub secret_shares : ℤ
  pub secret_threshold : ℤ
  pub store_root_token : Bool
  pub overwrite_existing : Bool

pub record Unsealer (K V : Type 0) : Type 0 where
  pub key_store : Service K
  pub cl : VaultClient V
  pub config : UnsealOptions

-- `New`, which copies the options.
unfoldable pub new :
    {K V : Type 0} → Service K → VaultClient V → UnsealOptions → Result (Unsealer K V)
new k cl config = ok (record { key_store = k; cl = cl; config = config })

-- The indices that `for i := 0; i <= shares; i++` runs through.
abbrev pub rounds_through : ℤ → ℕ
rounds_through (pos n) = suc n
rounds_through (negsuc n) = 0

unfoldable pub unseal_key_ids : Text → ℕ → ℕ → List Text
unseal_key_ids prefix i zero = []
unseal_key_ids prefix i (suc n) = unseal_key_id prefix i ∷ unseal_key_ids prefix (suc i) n

-- The keys that `Init` wants to be absent. The counter of its loop has no bound here; at the largest
-- `int` the source's loop does not end (Vault/Unseal/KeyLoop).
unfoldable pub keys_to_test : UnsealOptions → List Text
unfolding unseal_key_ids
keys_to_test c =
    root_token_id c.key_prefix ∷ unseal_key_ids c.key_prefix 0 (rounds_through c.secret_shares)

-- What `keyStoreNotFound` makes of the error: only a `*kv.NotFoundError` counts.
abbrev pub reports_missing : Result Text → Bool
reports_missing (ok value) = false
reports_missing (err e) = is_not_found e

-- The request of `Init` to the Vault server.
abbrev pub init_request : UnsealOptions → InitRequest
init_request c = record { secret_shares = c.secret_shares; secret_threshold = c.secret_threshold }

abbrev pub set_exists_error : Text → Error
set_exists_error key =
    plain (text "error setting key " ++ (key ++ text " to keystore, it already exists"))

abbrev pub init_exists_error : Text → Error
init_exists_error key =
    plain (text "error before init: keystore value for '" ++ (key ++ text "' already exists"))

module _ {K V : Type 0} (u : Unsealer K V) where
  unfoldable pub is_sealed : Call (World K V) Bool
  is_sealed = do
    resp ← wrapping (text "failed to check seal status with ") (on_vault u.cl.seal_status)
    pure resp.sealed

  unfoldable pub is_initialized : Call (World K V) Bool
  is_initialized =
      wrapping (text "failed to check initilized status with ") (on_vault u.cl.init_status)

  -- One round of the loop of `Unseal`: true if the vault is now unsealed.
  unfoldable pub unseal_round : ℕ → Call (World K V) Bool
  unseal_round i = do
    let key_id = unseal_key_id u.config.key_prefix i
    k ←
        wrapping (text "failed to get key = " ++ (key_id ++ text " with "))
          (on_store (u.key_store.get key_id))
    resp ←
        wrapping (text "failed to send unseal request to the vault with ")
          (on_vault (u.cl.unseal k))
    if not resp.sealed
        then pure true
        else if resp.progress == 0
        then raise (plain (text "failed to unseal the vault, progress is reset to 0"))
        else pure false

  -- The loop from index `i` on, which has no bound here; `none` if the fuel runs out.
  unfoldable pub unseal_from : ℕ → ℕ → World K V → Option (Result Unit × World K V)
  unseal_from zero i w = none
  unseal_from (suc fuel) i w =
      let (r, w') = unseal_round i w in
      elim r [
        | ok unsealed ↦ elim unsealed [
          | true ↦ some (ok tt, w')
          | false ↦ unseal_from fuel (suc i) w'
        ]
        | err e ↦ some (err e, w')
      ]

  unfoldable pub unseal : ℕ → World K V → Option (Result Unit × World K V)
  unfolding unseal_from unseal_round
  unseal fuel w = unseal_from fuel 0 w

  unfoldable pub key_store_not_found : Text → Call (World K V) Bool
  key_store_not_found key w =
      let (r, w') = on_store (u.key_store.get key) w in (ok (reports_missing r), w')

  -- `!overwrite && !keyStoreNotFound(key)`: the key is read only if it may not be overwritten.
  unfoldable pub may_set : Text → Call (World K V) Bool
  unfolding key_store_not_found
  may_set key = if u.config.overwrite_existing then pure true else key_store_not_found key

  unfoldable pub key_store_set : Text → Text → Call (World K V) Unit
  unfolding may_set
  key_store_set key value = do
    allowed ← may_set key
    if allowed then on_store (u.key_store.set key value) else raise (set_exists_error key)

  unfoldable pub check_absent : List Text → Call (World K V) Unit
  unfolding key_store_not_found
  check_absent [] = pure tt
  check_absent (key ∷ keys) = do
    missing ← key_store_not_found key
    if missing then check_absent keys else raise (init_exists_error key)

  unfoldable pub store_unseal_keys : ℕ → List Text → Call (World K V) Unit
  store_unseal_keys i [] = pure tt
  store_unseal_keys i (k ∷ keys) = do
    let key_id = unseal_key_id u.config.key_prefix i
    wrapping (text "failed to store the unseal key = '" ++ (key_id ++ text "' with "))
        (key_store_set key_id k)
    store_unseal_keys (suc i) keys

  unfoldable pub store_root_token : Text → Call (World K V) Unit
  store_root_token token =
      if u.config.store_root_token
      then wrapping (text "failed to store the root token with ")
          (key_store_set (root_token_id u.config.key_prefix) token)
      else pure tt

  unfoldable pub test_key_store : Call (World K V) Unit
  test_key_store =
      wrapping (text "error testing keystore before init with ")
        (on_store (u.key_store.test (test_key u.config.key_prefix)))

  unfoldable pub check_no_keys : Call (World K V) Unit
  unfolding check_absent
  check_no_keys =
      if u.config.overwrite_existing then pure tt else check_absent (keys_to_test u.config)

  unfoldable pub init_vault : Call (World K V) InitResponse
  init_vault =
      wrapping (text "failed to initialize the vault with ")
        (on_vault (u.cl.init (init_request u.config)))

  unfoldable pub init : Call (World K V) Unit
  init = do
    test_key_store
    check_no_keys
    resp ← init_vault
    store_unseal_keys 0 resp.keys
    store_root_token resp.root_token

  unfoldable pub check_read_write_access : Call (World K V) Unit
  check_read_write_access =
      wrapping (text "read/write access test failed: ") (on_store u.key_store.check_write_access)
