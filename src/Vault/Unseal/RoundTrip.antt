-- ===== src/Vault/Unseal/RoundTrip.antt =====
-- `Init` of pkg/vault/unseal, and then `Unseal`.
use mathlib.Core.Path.{subst}
use native.Mathlib.Nat.{zero-add, add-zero}
use unsealer.Prelude.{
  ℕ, zero, suc, ◌+◌, ◌≤◌, ◌<◌, ◌≡◌, refl, ◌∙◌, sym, true, false, Option, some, List, [], ◌∷◌, arith,
  length, get_elem?, take, length-take,
}
use unsealer.Prelude.Int.{pos}
use unsealer.Text.{Text, text_eq_refl}
use unsealer.Effect.{ok}
use unsealer.Kv.Contract.{KvContract, KvAvailable}
use unsealer.Vault.Keys.{unseal_key_id}
use unsealer.Vault.World.{World}
use unsealer.Vault.Contract.{VaultView, VaultContract, VaultAvailable, all_in, AllNew}
use unsealer.Vault.Unseal.Defs.{Unsealer, init, unseal, init_request}
use unsealer.Vault.Unseal.Success.{StoresFrom, unseal_succeeds}
use unsealer.Vault.Unseal.InitStores.{init_stores}

all_in-cons : (k : Text) (ks keys : List Text) → all_in ks keys ≡ true → all_in ks (k ∷ keys) ≡ true
all_in-cons k [] keys h = refl
all_in-cons k (l ∷ ks) keys h = ground (arith, all_in-cons k ks keys)

all_in_refl : (keys : List Text) → all_in keys keys ≡ true
all_in_refl [] = refl
all_in_refl (k ∷ keys) = ground (arith, text_eq_refl k, all_in-cons k keys keys, all_in_refl keys)

all_in-take : (n : ℕ) (ks keys : List Text) → all_in ks keys ≡ true → all_in (take n ks) keys ≡ true
all_in-take zero ks keys h = refl
all_in-take (suc n) [] keys h = refl
all_in-take (suc n) (k ∷ ks) keys h = ground (arith, all_in-take n ks keys)

AllNew-take : (n : ℕ) (ks pending : List Text) → AllNew ks pending → AllNew (take n ks) pending
AllNew-take zero ks pending h = tt
AllNew-take (suc n) [] pending h = tt
AllNew-take (suc n) (k ∷ ks) pending h = (h.0, AllNew-take n ks (k ∷ pending) h.1)

module _ {K V : Type 0} (u : Unsealer K V) (holds : K → Text → Option Text) (view : V → VaultView)
    (store : KvContract u.key_store holds) (vault : VaultContract u.cl view) where
  -- What a successful `Init` leaves behind: the server has the shares, and the key store holds them.
  pub after_init :
      (n t : ℕ) (w : World K V)
      → u.config.secret_shares ≡ pos n
      → u.config.secret_threshold ≡ pos t
      → (view w.vault).initialized ≡ false
      → (init u w).0 ≡ ok tt
      → (keys : List Text) × (view (init u w).1.vault ≡ record {
        initialized = true;
        sealed = true;
        threshold = t;
        shares = keys;
        pending = [];
      })
        × (length keys ≡ n)
        × AllNew keys []
        × ((m : ℕ) (k : Text)
            → get_elem? keys m ≡ some k
            → holds (init u w).1.store (unseal_key_id u.config.key_prefix m) ≡ some k)
  after_init n t w shares threshold fresh done =
      let (resp, answered, at_vault, stored, root) =
        init_stores u holds store w
          (λ r. vault.init_bytes (init_request u.config) w.vault {resp = r}) done in
      let request : init_request u.config
          ≡ record { secret_shares = pos n; secret_threshold = pos t } =
        λ i. record { secret_shares = shares i; secret_threshold = threshold i } in
      let (after, count, new) =
        vault.init_ok n t w.vault fresh
          (subst (λ r. (u.cl.init r w.vault).0 ≡ ok resp) request answered) in
      (resp.keys, rw (at_vault, request) after, count, new, stored)

  -- After a successful `Init` the server is sealed.
  pub init_seals :
      (n t : ℕ) (w : World K V)
      → u.config.secret_shares ≡ pos n
      → u.config.secret_threshold ≡ pos t
      → (view w.vault).initialized ≡ false
      → (init u w).0 ≡ ok tt
      → (view (init u w).1.vault).sealed ≡ true
  init_seals n t w shares threshold fresh done =
      let (keys, now, count, new, stored) = after_init n t w shares threshold fresh done in
      rw now refl

module _ {K V : Type 0} (u : Unsealer K V) (holds : K → Text → Option Text) (view : V → VaultView)
    (store : KvContract u.key_store holds) (vault : VaultContract u.cl view)
    (store_up : KvAvailable u.key_store holds) (vault_up : VaultAvailable u.cl view) where
  StoresFrom-take :
      (w : K) (n i : ℕ) (keys : List Text)
      → ((m : ℕ) (k : Text)
          → get_elem? keys m ≡ some k
          → holds w (unseal_key_id u.config.key_prefix (i + m)) ≡ some k)
      → StoresFrom holds u.config.key_prefix w i (take n keys)
  StoresFrom-take w zero i keys h = tt
  StoresFrom-take w (suc n) i [] h = tt
  StoresFrom-take w (suc n) i (k ∷ keys) h = (
    subst (λ m. holds w (unseal_key_id u.config.key_prefix m) ≡ some k) (add-zero i) (h 0 k refl),
    StoresFrom-take w n (suc i) keys λ m l at.
        subst (λ j. holds w (unseal_key_id u.config.key_prefix j) ≡ some l) (omega arith)
          (h (suc m) l at),
  )

  -- `Unseal` at a world that shows what `Init` has left.
  pub unseal_after_init :
      (n t : ℕ) (w w₂ : World K V)
      → u.config.secret_shares ≡ pos n
      → u.config.secret_threshold ≡ pos t
      → 0 < t
      → t ≤ n
      → (view w.vault).initialized ≡ false
      → (init u w).0 ≡ ok tt
      → w₂.store ≡ (init u w).1.store
      → view w₂.vault ≡ view (init u w).1.vault
      → (w' : World K V) × (unseal u t w₂ ≡ some (ok tt, w')) × ((view w'.vault).sealed ≡ false)
  unseal_after_init n t w w₂ shares threshold positive fits fresh done same_store same_view =
      let (keys, left, count, new, stored) =
        after_init u holds view store vault n t w shares threshold fresh done in
      let now : view w₂.vault ≡ record {
        initialized = true;
        sealed = true;
        threshold = t;
        shares = keys;
        pending = [];
      } =
        same_view ∙ left in
      let len : length (take t keys) ≡ t = length-take t keys (omega arith) in
      let (w', run, unsealed) =
        unseal_succeeds u holds view store vault store_up vault_up (take t keys) w₂ (rw now refl)
          (rw now refl)
          (StoresFrom-take w₂.store t 0 keys λ m k at.
            subst (λ j. holds w₂.store (unseal_key_id u.config.key_prefix j) ≡ some k)
              (sym (zero-add m)) (rw same_store (stored m k at)))
          (AllNew-take t keys [] new) (rw now (all_in-take t keys keys (all_in_refl keys)))
          (rw now len) (omega arith) in
      (w', rw len at run, unsealed)

  -- With a positive threshold that is at most the number of shares: if `Init` returns without an
  -- error at an uninitialized vault, and the key store and the server answer, then the `Unseal`
  -- that follows returns without an error within as many rounds as the threshold, and the vault is
  -- unsealed.
  pub init-unseal :
      (n t : ℕ) (w : World K V)
      → u.config.secret_shares ≡ pos n
      → u.config.secret_threshold ≡ pos t
      → 0 < t
      → t ≤ n
      → (view w.vault).initialized ≡ false
      → (init u w).0 ≡ ok tt
      → (w' : World K V) × (unseal u t (init u w).1 ≡ some (ok tt, w'))
        × ((view w'.vault).sealed ≡ false)
  init-unseal n t w shares threshold positive fits fresh done =
      unseal_after_init n t w (init u w).1 shares threshold positive fits fresh done refl refl
