-- ===== src/Vault/Keys.antt =====
-- pkg/vault/util/util.go and `testKey` of pkg/vault/unseal/vault.go: the names of the keys that the
-- unsealer stores.
use unsealer.Prelude.{ℕ, ◌≡◌, ◌≢◌, ap, ◌∙◌, [], ◌∷◌, ◌++◌, arith, append_assoc, append_cancel_left}
use unsealer.Text.{Text, text, codes}
use unsealer.Text.Decimal.{decimal, decimal_injective, decimal-last, ends_in, ends_in-append}
use unsealer.Kv.{dummy_key}

unfoldable pub unseal_key_id : Text → ℕ → Text
unseal_key_id prefix i = prefix ++ (text "-unseal-key-" ++ decimal i)

unfoldable pub root_token_id : Text → Text
root_token_id prefix = prefix ++ text "-root-token"

unfoldable pub test_key : Text → Text
test_key prefix = prefix ++ text "-test"

-- Different indices have different key names, whatever the prefix.
pub unseal_key_id_injective :
    (prefix : Text) (i j : ℕ) → unseal_key_id prefix i ≡ unseal_key_id prefix j → i ≡ j
unfolding unseal_key_id
unseal_key_id_injective prefix i j e = decimal_injective i j (
    append_cancel_left (text "-unseal-key-") (decimal i) (decimal j)
      (append_cancel_left prefix _ _ e))

-- No unseal key has the name of the root token.
pub root_token_id-ne-unseal_key_id :
    (prefix : Text) (i : ℕ) → root_token_id prefix ≢ unseal_key_id prefix i
unfolding root_token_id unseal_key_id text
root_token_id-ne-unseal_key_id prefix i e = cc (append_cancel_left prefix _ _ e)

-- No key name of the unsealer is the test key's.
pub test_key-ne-root_token_id : (prefix : Text) → test_key prefix ≢ root_token_id prefix
unfolding root_token_id test_key text
test_key-ne-root_token_id prefix e = cc (append_cancel_left prefix _ _ e)

pub test_key-ne-unseal_key_id : (prefix : Text) (i : ℕ) → test_key prefix ≢ unseal_key_id prefix i
unfolding test_key unseal_key_id text
test_key-ne-unseal_key_id prefix i e = cc (append_cancel_left prefix _ _ e)

-- The access check of a key store writes under a name that no prefix turns into an unseal key's or
-- the root token's.
pub dummy_key-ne-unseal_key_id : (prefix : Text) (i : ℕ) → dummy_key ≢ unseal_key_id prefix i
unfolding unseal_key_id text ends_in
dummy_key-ne-unseal_key_id prefix i e =
    let (s, c, last, digit) = decimal-last i in
    let t = prefix ++ (codes "-unseal-key-" ++ s) in
    let ending : unseal_key_id prefix i ≡ t ++ c ∷ [] = simp (last, append_assoc) in
    omega (arith, ap (ends_in 0) (e ∙ ending), ends_in-append 0 t c [])

pub dummy_key-ne-root_token_id : (prefix : Text) → dummy_key ≢ root_token_id prefix
unfolding root_token_id text ends_in
dummy_key-ne-root_token_id prefix e =
    omega (arith, ap (ends_in 0) e, ends_in-append 0 prefix b'-' (codes "root-token"))
