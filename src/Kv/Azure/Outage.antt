-- ===== src/Kv/Azure/Outage.antt =====
-- `Get` of pkg/kv/azure at an error, and `keyStoreSet` of pkg/vault/unseal over it.
use unsealer.Prelude.{◌≡◌, refl, true, false, arith}
use unsealer.Text.{Text}
use unsealer.Effect.{Error, err}
use unsealer.Kv.Defs.{is_not_found}
use unsealer.Kv.Azure.Defs.{
  AzureStore, get_key_name, get, get_secret, set, service, get_latest_version_of_secret,
}
use unsealer.Vault.World.{World, on_store}
use unsealer.Vault.Unseal.Defs.{
  Unsealer, key_store_set, may_set, key_store_not_found, reports_missing,
}

-- Every error of `Get` is a `*kv.NotFoundError`.
pub get_fails_not_found :
    {K : Type 0} (k : AzureStore K) (key : Text) (w : K) {e : Error}
    → (get k key w).0 ≡ err e
    → is_not_found e ≡ true
unfolding get
get_fails_not_found k key w {e} h = ground arith

reports_missing_outage :
    {K : Type 0} (k : AzureStore K) (key : Text) (w : K) {e : Error}
    → (k.key_client.get_secret_versions k.vault_base_url (get_key_name k key) 20 w).0 ≡ err e
    → reports_missing (get k key w).0 ≡ true
unfolding get get_secret get_latest_version_of_secret
reports_missing_outage k key w outage = ground arith

-- With an Azure key vault as the key store, where existing keys may not be overwritten: if the
-- versions of the secret cannot be listed, for whatever reason, then `keyStoreSet` goes on to `Set`
-- and returns what that does.
pub key_store_set_outage :
    {K V : Type 0} (k : AzureStore K) (u : Unsealer K V) (key value : Text) (w : World K V)
    {e : Error}
    → u.key_store ≡ service k
    → u.config.overwrite_existing ≡ false
    → (k.key_client.get_secret_versions k.vault_base_url (get_key_name k key) 20 w.store).0 ≡ err e
    → key_store_set u key value w
      ≡ on_store (set k key value) (record w { store = (get k key w.store).1 })
unfolding key_store_set may_set key_store_not_found service
key_store_set_outage k u key value w keeper no_overwrite outage =
    rw (keeper, no_overwrite, reports_missing_outage k key w.store outage) refl
