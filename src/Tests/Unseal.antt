-- ===== src/Tests/Unseal.antt =====
-- The theorems on the unsealer, at the key store and the server in memory.
use unsealer.Prelude.{ℕ, ◌≡◌, refl, Bool, true, false, none, some, get_elem?, [], ◌∷◌, arith}
use unsealer.Prelude.Int.{pos}
use unsealer.Text.{Text, text, text_eq}
use unsealer.Text.Decimal.{decimal}
use unsealer.Effect.{Error, Result, ok, err}
use unsealer.Vault.Keys.{unseal_key_id, root_token_id, test_key}
use unsealer.Vault.Client.{InitResponse}
use unsealer.Vault.World.{World}
use unsealer.Vault.Contract.{VaultView, AllNew, all_in, contains}
use unsealer.Vault.Unseal.Defs.{
  UnsealOptions, Unsealer, unseal, init, init_request as init_request_of, keys_to_test,
  test_key_store, check_no_keys, check_absent, key_store_not_found, unseal_key_ids, init_vault,
  store_unseal_keys, store_root_token, key_store_set, may_set,
}
use unsealer.Vault.Unseal.Termination.{unseal_total}
use unsealer.Vault.Unseal.Success.{unseal_succeeds}
use unsealer.Vault.Unseal.Soundness.{unseal_sound}
use unsealer.Vault.Unseal.KeySafety.{init_keeps_keys, init_refuses}
use unsealer.Vault.Unseal.InitStores.{init_stores}
use unsealer.Vault.Unseal.RoundTrip.{init-unseal}
use unsealer.Tests.Store.{
  Memory, held, memory_store, memory-KvContract, memory-KvAvailable, empty_memory, write, all_bytes,
}
use unsealer.Tests.Server.{
  Server, server_client, view, server-VaultContract, server-VaultAvailable, shares_below,
  init_request,
}

abbrev pub options : UnsealOptions
options = record {
  key_prefix = text "vault";
  secret_shares = pos 5;
  secret_threshold = pos 3;
  store_root_token = true;
  overwrite_existing = false;
}

abbrev pub u : Unsealer Memory Server
u = record { key_store = memory_store; cl = server_client; config = options }

abbrev no_vault : VaultView
no_vault = record { initialized = false; sealed = true; threshold = 0; shares = []; pending = [] }

abbrev pub new_server : Server
new_server = record { vault = no_vault; token = []; mounts = []; policies = []; requests = [] }

abbrev pub start : World Memory Server
start = record { store = empty_memory; vault = new_server }

abbrev pub key : ℕ → Text
key i = unseal_key_id (text "vault") i

-- The first three of five shares, stored; the server is initialized with a threshold of three.
abbrev three_keys : Memory
three_keys = write (key 0) (4 ∷ []) (write (key 1) (3 ∷ []) (write (key 2) (2 ∷ []) empty_memory))

abbrev sealed_vault : VaultView
sealed_vault = record {
  initialized = true;
  sealed = true;
  threshold = 3;
  shares = shares_below 5;
  pending = [];
}

abbrev pub sealed_world : World Memory Server
sealed_world = record { store = three_keys; vault = record new_server { vault = sealed_vault } }

-- `Init` at the empty store and the new server.
init_runs : (init u start).0 ≡ ok tt
unfolding init test_key_store check_no_keys check_absent key_store_not_found keys_to_test
    unseal_key_ids init_vault store_unseal_keys store_root_token key_store_set may_set unseal_key_id
    root_token_id test_key text text_eq decimal all_bytes init_request
init_runs = refl

no_key_3 : held three_keys (key 3) ≡ none
unfolding unseal_key_id text text_eq decimal all_bytes
no_key_3 = refl

unseal_total_example : (r : Result Unit × World Memory Server) × (unseal u 4 sealed_world ≡ some r)
unseal_total_example = unseal_total u held memory-KvContract 3 sealed_world no_key_3

pub keys_held :
    (held three_keys (key 0) ≡ some (4 ∷ []))
    × (held three_keys (key 1) ≡ some (3 ∷ []))
    × (held three_keys (key 2) ≡ some (2 ∷ []))
    × Unit {0}
unfolding unseal_key_id text text_eq decimal all_bytes
keys_held = (refl, refl, refl, tt)

pub shares_right : AllNew ((4 ∷ []) ∷ (3 ∷ []) ∷ (2 ∷ []) ∷ []) []
unfolding text_eq
shares_right = (refl, (refl, (refl, tt)))

pub shares_known : all_in ((4 ∷ []) ∷ (3 ∷ []) ∷ (2 ∷ []) ∷ []) (shares_below 5) ≡ true
unfolding text_eq
shares_known = refl

unseal_succeeds_example :
    (w' : World Memory Server) × (unseal u 3 sealed_world ≡ some (ok tt, w'))
    × ((view w'.vault).sealed ≡ false)
unseal_succeeds_example =
    unseal_succeeds u held view memory-KvContract server-VaultContract memory-KvAvailable
      server-VaultAvailable ((4 ∷ []) ∷ (3 ∷ []) ∷ (2 ∷ []) ∷ []) sealed_world refl refl
      (keys_held.0, (keys_held.1, (keys_held.2, tt))) shares_right shares_known refl (omega arith)

-- `Unseal` at the stored keys.
pub unseal_runs : (w' : World Memory Server) × (unseal u 3 sealed_world ≡ some (ok tt, w'))
unseal_runs =
    let (w', run, unsealed) =
      unseal_succeeds u held view memory-KvContract server-VaultContract memory-KvAvailable
        server-VaultAvailable ((4 ∷ []) ∷ (3 ∷ []) ∷ (2 ∷ []) ∷ []) sealed_world refl refl
        (keys_held.0, (keys_held.1, (keys_held.2, tt))) shares_right shares_known refl
        (omega arith) in
    (w', run)

unseal_sound_example : (view unseal_runs.0.vault).sealed ≡ false
unseal_sound_example =
    unseal_sound u view server-VaultContract 3 sealed_world unseal_runs.0 refl unseal_runs.1

init_keeps_keys_example : held (init u sealed_world).1.store (key 1) ≡ some (3 ∷ [])
init_keeps_keys_example =
    init_keeps_keys u held memory-KvContract (key 1) (3 ∷ []) refl sealed_world keys_held.1

key_is_tested : contains (key 1) (keys_to_test options) ≡ true
unfolding keys_to_test unseal_key_ids unseal_key_id root_token_id text text_eq decimal
key_is_tested = refl

init_refuses_example :
    ((e : Error) × ((init u sealed_world).0 ≡ err e))
    × ((init u sealed_world).1.vault ≡ sealed_world.vault)
init_refuses_example =
    init_refuses u held memory-KvContract (key 1) (3 ∷ []) sealed_world refl key_is_tested
      keys_held.1

init_stores_example :
    (resp : InitResponse) × ((server_client.init (init_request_of options) new_server).0 ≡ ok resp)
    × ((init u start).1.vault ≡ (server_client.init (init_request_of options) new_server).1)
    × ((n : ℕ) (k : Text)
        → get_elem? resp.keys n ≡ some k
        → held (init u start).1.store (unseal_key_id (text "vault") n) ≡ some k)
    × (◌≡◌ {A = Bool} true true
        → held (init u start).1.store (root_token_id (text "vault")) ≡ some resp.root_token)
init_stores_example =
    init_stores u held memory-KvContract start
      (λ resp. server-VaultContract.init_bytes (init_request_of options) new_server {resp = resp})
      init_runs

init-unseal_example :
    (w' : World Memory Server) × (unseal u 3 (init u start).1 ≡ some (ok tt, w'))
    × ((view w'.vault).sealed ≡ false)
init-unseal_example =
    init-unseal u held view memory-KvContract server-VaultContract memory-KvAvailable
      server-VaultAvailable 5 3 start refl refl (omega arith) (omega arith) refl init_runs
