-- ===== src/Vault/Unseal/OneMore.antt =====
-- The keys that `Init` of pkg/vault/unseal tests for, and the keys that it writes.
use unsealer.Prelude.{ℕ, zero, suc, ◌+◌, ◌≡◌, ◌∙◌, ap, sym, true, false, ◌||◌, Option, some, arith}
use unsealer.Prelude.Int.{pos}
use native.Mathlib.Nat.{zero-add, add-zero}
use unsealer.Text.{Text, text_eq, text_eq_refl}
use unsealer.Effect.{Error, err}
use unsealer.Kv.Contract.{KvContract}
use unsealer.Vault.Keys.{unseal_key_id}
use unsealer.Vault.World.{World}
use unsealer.Vault.Contract.{contains}
use unsealer.Vault.Unseal.Defs.{Unsealer, UnsealOptions, unseal_key_ids, keys_to_test, init}
use unsealer.Vault.Unseal.KeySafety.{init_refuses}

contains-unseal_key_ids :
    (p : Text) (i m : ℕ) → contains (unseal_key_id p (m + i)) (unseal_key_ids p i (suc m)) ≡ true
unfolding unseal_key_ids
contains-unseal_key_ids p i zero =
    ap (λ n. text_eq (unseal_key_id p n) (unseal_key_id p i) || false) (zero-add i)
    ∙ ap (λ b. b || false) (text_eq_refl (unseal_key_id p i))
contains-unseal_key_ids p i (suc m) =
    let later : contains (unseal_key_id p (suc m + i)) (unseal_key_ids p (suc i) (suc m)) ≡ true =
      ap (λ n. contains (unseal_key_id p n) (unseal_key_ids p (suc i) (suc m))) (omega arith)
      ∙ contains-unseal_key_ids p (suc i) m in
    ground (arith, later)

contains-keys_to_test :
    (c : UnsealOptions) (n : ℕ)
    → c.secret_shares ≡ pos n
    → contains (unseal_key_id c.key_prefix n) (keys_to_test c) ≡ true
unfolding keys_to_test
contains-keys_to_test c n shares =
    let last : contains (unseal_key_id c.key_prefix n) (unseal_key_ids c.key_prefix 0 (suc n))
        ≡ true =
      ap (λ m. contains (unseal_key_id c.key_prefix m) (unseal_key_ids c.key_prefix 0 (suc n)))
        (sym (add-zero n))
      ∙ contains-unseal_key_ids c.key_prefix 0 n in
    rw shares (ground (arith, last))

-- Without `OverwriteExisting` and with `n` secret shares, if the key store holds a value under the
-- unseal key of index `n`, although the shares get the indices below `n`, then `Init` fails and the
-- Vault server is not asked for anything.
pub init_refuses_one_more :
    {K V : Type 0} (u : Unsealer K V) (holds : K → Text → Option Text)
    (store : KvContract u.key_store holds) (n : ℕ) (v : Text) (w : World K V)
    → u.config.overwrite_existing ≡ false
    → u.config.secret_shares ≡ pos n
    → holds w.store (unseal_key_id u.config.key_prefix n) ≡ some v
    → ((e : Error) × ((init u w).0 ≡ err e)) × ((init u w).1.vault ≡ w.vault)
init_refuses_one_more u holds store n v w no_overwrite shares held =
    init_refuses u holds store (unseal_key_id u.config.key_prefix n) v w no_overwrite
      (contains-keys_to_test u.config n shares) held
