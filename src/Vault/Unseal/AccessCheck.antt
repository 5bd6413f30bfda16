-- ===== src/Vault/Unseal/AccessCheck.antt =====
-- `CheckReadWriteAccess` of pkg/vault/unseal and the keys that are stored already.
use unsealer.Prelude.{ℕ, ◌≡◌, Option}
use unsealer.Text.{Text, text_ne}
use unsealer.Kv.{dummy_key}
use unsealer.Kv.Contract.{CheckContract}
use unsealer.Vault.Keys.{
  unseal_key_id, root_token_id, dummy_key-ne-unseal_key_id, dummy_key-ne-root_token_id,
}
use unsealer.Vault.World.{World}
use unsealer.Vault.Unseal.Defs.{Unsealer, check_read_write_access}

-- Over a key store whose access check leaves every key but its own, `CheckReadWriteAccess` leaves
-- every unseal key and the root token as they were, with any prefix, whether it succeeds or fails.
pub check_keeps_keys :
    {K V : Type 0} (u : Unsealer K V) (holds : K → Text → Option Text)
    (check : CheckContract u.key_store holds) (w : World K V)
    → let p = u.config.key_prefix in
      ((i : ℕ)
        → holds (check_read_write_access u w).1.store (unseal_key_id p i)
          ≡ holds w.store (unseal_key_id p i))
      × (holds (check_read_write_access u w).1.store (root_token_id p)
          ≡ holds w.store (root_token_id p))
unfolding check_read_write_access
check_keeps_keys u holds check w =
    let p = u.config.key_prefix in
    (
      λ i.
          check.check_frame w.store (unseal_key_id p i)
            (text_ne dummy_key (unseal_key_id p i) (dummy_key-ne-unseal_key_id p i)),
      check.check_frame w.store (root_token_id p)
          (text_ne dummy_key (root_token_id p) (dummy_key-ne-root_token_id p)),
    )
