-- ===== src/Vault/Contract.antt =====
-- What the unsealer relies on of the Vault server: the documented behaviour of the endpoints
-- sys/init, sys/seal-status and sys/unseal, over a view of the server's state.
use unsealer.Prelude.{
  ℕ, suc, ◌≡◌, Bool, true, false, ◌&&◌, ◌||◌, List, [], ◌∷◌, ltb, length, All, ◌⊎◌, if◌then◌else◌,
}
use unsealer.Prelude.Int.{pos}
use unsealer.Text.{Text, IsBytes, text_eq}
use unsealer.Effect.{Error, ok, err}
use unsealer.Vault.Client.{SealStatus, InitRequest, InitResponse, VaultClient}

abbrev pub contains : Text → List Text → Bool
contains k [] = false
contains k (j ∷ keys) = text_eq k j || contains k keys

abbrev pub all_in : List Text → List Text → Bool
all_in [] keys = true
all_in (k ∷ ks) keys = contains k keys && all_in ks keys

-- The keys are different from each other and from those that are pending.
abbrev pub AllNew : List Text → List Text → Type 0
AllNew [] pending = Unit
AllNew (k ∷ keys) pending = (contains k pending ≡ false) × AllNew keys (k ∷ pending)

-- `pending` are the different shares submitted since the last reset, `shares` those that count.
pub record VaultView : Type 0 where
  pub initialized : Bool
  pub sealed : Bool
  pub threshold : ℕ
  pub shares : List Text
  pub pending : List Text

-- sys/unseal at a sealed vault: a share submitted twice does not count twice; the last one that is
-- needed unseals the vault if all are right, and resets the progress if one is not.
unfoldable pub submit : Text → VaultView → VaultView
submit k v =
    if contains k v.pending
    then v
    else if ltb (suc (length v.pending)) v.threshold
    then record v { pending = k ∷ v.pending }
    else if all_in (k ∷ v.pending) v.shares
    then record v { sealed = false; pending = [] }
    else record v { pending = [] }

pub record VaultContract {V : Type 0} (c : VaultClient V) (view : V → VaultView) : Type 0 where
  pub unseal_ok :
      (k : Text) (v : V) {s : SealStatus}
      → (view v).sealed ≡ true
      → (c.unseal k v).0 ≡ ok s
      → (view (c.unseal k v).1 ≡ submit k (view v))
        × (s.sealed ≡ (submit k (view v)).sealed)
        × (s.progress ≡ length (submit k (view v)).pending)
  -- sys/init gives as many different shares as were asked for, and leaves the vault sealed.
  pub init_ok :
      (n t : ℕ) (v : V) {resp : InitResponse}
      → (view v).initialized ≡ false
      → (c.init (record { secret_shares = pos n; secret_threshold = pos t }) v).0 ≡ ok resp
      → (view (c.init (record { secret_shares = pos n; secret_threshold = pos t }) v).1 ≡ record {
        initialized = true;
        sealed = true;
        threshold = t;
        shares = resp.keys;
        pending = [];
      })
        × (length resp.keys ≡ n)
        × AllNew resp.keys []
  pub init_bytes :
      (q : InitRequest) (v : V) {resp : InitResponse}
      → (c.init q v).0 ≡ ok resp
      → All IsBytes resp.keys × IsBytes resp.root_token
  pub init_status_ok : (v : V) {b : Bool} → (c.init_status v).0 ≡ ok b → b ≡ (view v).initialized
  pub seal_status_ok :
      (v : V) {s : SealStatus} → (c.seal_status v).0 ≡ ok s → s.sealed ≡ (view v).sealed
  pub init_status_keeps : (v : V) → view (c.init_status v).1 ≡ view v
  pub seal_status_keeps : (v : V) → view (c.seal_status v).1 ≡ view v

-- A request that fails, as by an answer that is lost, has had its effect or none.
pub record VaultFailures {V : Type 0} (c : VaultClient V) (view : V → VaultView) : Type 0 where
  pub unseal_err :
      (k : Text) (v : V) {e : Error}
      → (view v).sealed ≡ true
      → (c.unseal k v).0 ≡ err e
      → (view (c.unseal k v).1 ≡ view v) ⊎ (view (c.unseal k v).1 ≡ submit k (view v))
  pub init_err :
      (n t : ℕ) (v : V) {e : Error}
      → (view v).initialized ≡ false
      → (c.init (record { secret_shares = pos n; secret_threshold = pos t }) v).0 ≡ err e
      → (view (c.init (record { secret_shares = pos n; secret_threshold = pos t }) v).1 ≡ view v)
        ⊎ ((keys : List Text) × (view
                (c.init (record { secret_shares = pos n; secret_threshold = pos t }) v).1
              ≡ record {
                initialized = true;
                sealed = true;
                threshold = t;
                shares = keys;
                pending = [];
              }))

-- A server that answers where the share and those that are pending are right: it may refuse others.
pub record VaultAvailable {V : Type 0} (c : VaultClient V) (view : V → VaultView) : Type 0 where
  pub unseal_answers :
      (k : Text) (v : V)
      → (view v).sealed ≡ true
      → all_in (k ∷ (view v).pending) (view v).shares ≡ true
      → (s : SealStatus) × ((c.unseal k v).0 ≡ ok s)
