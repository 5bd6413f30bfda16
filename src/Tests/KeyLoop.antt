-- ===== src/Tests/KeyLoop.antt =====
-- The loop that lists the keys to test, with five shares and an `int` of 64 bits.
use unsealer.Prelude.{ℕ, ◌≡◌, ◌⊎◌, refl, none, some, ◌∷◌, [], arith}
use unsealer.Prelude.Int.{pos}
use unsealer.Text.{text}
use unsealer.Vault.Keys.{root_token_id}
use unsealer.Vault.Unseal.Defs.{keys_to_test}
use unsealer.Vault.Unseal.KeyLoop.{unseal_key_loop, unseal_key_loop-keys_to_test}
use unsealer.Tests.Unseal.{options}

abbrev half : ℕ
half = 9223372036854775808

unseal_key_loop-keys_to_test_example :
    (unseal_key_loop half options 7 (pos 0) (root_token_id (text "vault") ∷ [])
      ≡ some (keys_to_test options))
    ⊎ ((6 ≡ half)
        × ((fuel : ℕ)
            → unseal_key_loop half options fuel (pos 0) (root_token_id (text "vault") ∷ []) ≡ none))
unseal_key_loop-keys_to_test_example =
    unseal_key_loop-keys_to_test half options 5 refl (omega arith)
