-- ===== src/Tests/OneMore.antt =====
-- `Init` with five shares, at a key store in memory that holds a sixth key.
use unsealer.Prelude.{◌⊎◌, ◌≡◌, refl, some, [], ◌∷◌}
use unsealer.Text.{text, text_eq}
use unsealer.Text.Decimal.{decimal}
use unsealer.Effect.{Error, err}
use unsealer.Vault.Keys.{unseal_key_id}
use unsealer.Vault.World.{World}
use unsealer.Vault.Unseal.Defs.{init, init_request as init_request_of}
use unsealer.Vault.Unseal.OneRequest.{init_requests_once}
use unsealer.Vault.Unseal.OneMore.{init_refuses_one_more}
use unsealer.Tests.Store.{Memory, held, memory-KvContract, empty_memory, write, all_bytes}
use unsealer.Tests.Server.{Server}
use unsealer.Tests.Unseal.{u, key, new_server}

abbrev sixth_key : World Memory Server
sixth_key = record { store = write (key 5) (9 ∷ []) empty_memory; vault = new_server }

sixth_held : held sixth_key.store (key 5) ≡ some (9 ∷ [])
unfolding unseal_key_id text text_eq decimal all_bytes
sixth_held = refl

init_refuses_one_more_example :
    ((e : Error) × ((init u sixth_key).0 ≡ err e)) × ((init u sixth_key).1.vault ≡ new_server)
init_refuses_one_more_example =
    init_refuses_one_more u held memory-KvContract 5 (9 ∷ []) sixth_key refl refl sixth_held

init_requests_once_example :
    ((init u sixth_key).1.vault ≡ new_server)
    ⊎ ((init u sixth_key).1.vault ≡ (u.cl.init (init_request_of u.config) new_server).1)
init_requests_once_example = init_requests_once u sixth_key
