-- ===== src/Worker/KeySafety.antt =====
-- What the loop of pkg/worker does to the stored keys.
use unsealer.Prelude.{ℕ, ◌≡◌, ◌∙◌, refl, Bool, true, false, [], Option, some, ◌==◌, not}
use unsealer.Text.{Text}
use unsealer.Effect.{Call, ◌>>◌, wrap_result_ok}
use unsealer.Effect.Keeps.{
  Keeps, Keeps-pure, Keeps-raise, Keeps-wrapping, Keeps-if, Keeps-bind, bind_keeps_at,
}
use unsealer.Kv.Contract.{KvContract, KvValues, KvContract-KvValues}
use unsealer.Vault.World.{World, on_store, on_vault}
use unsealer.Vault.Unseal.Defs.{Unsealer, is_initialized, is_sealed, unseal_round}
use unsealer.Worker.Options.{WorkerOptions}
use unsealer.Worker.Contract.{Initialized, StaysInitialized}
use unsealer.Worker.Loop.{State, ensure_initialized, check_vault, step}
use unsealer.Vault.Keys.{root_token_id}
use unsealer.Worker.Administers.{Administers, Keeps-configure_vault}
use unsealer.Worker.Invariants.{step_keeps}
use unsealer.Worker.Steps.{Steps, Steps-invariant}

module _ {K V : Type 0} (u : Unsealer K V) (holds : K → Text → Option Text)
    (store : KvValues u.key_store holds) (initialized : V → Bool)
    (server : StaysInitialized u.cl initialized) (j : Text) (x : Option Text) where
  abbrev Safe : World K V → Type 0
  Safe w = (initialized w.vault ≡ true) × (holds w.store j ≡ x)

  Keeps-on_vault :
      {A : Type 0} (m : Call V A)
      → Keeps (Initialized initialized) m
      → Keeps Safe (on_vault {K = K} m)
  Keeps-on_vault m k = record { at = λ w h. (k.at w.vault h.0, h.1) }

  Keeps-get : (key : Text) → Keeps Safe (on_store {V = V} (u.key_store.get key))
  Keeps-get key = record { at = λ w h. (h.0, store.get_keeps key w.store j ∙ h.1) }

  Keeps-unseal_round : (i : ℕ) → Keeps Safe (unseal_round u i)
  unfolding unseal_round
  Keeps-unseal_round i = Keeps-bind _ _ (Keeps-wrapping _ _ (Keeps-get _)) λ k.
      Keeps-bind _ _ (Keeps-wrapping _ _ (Keeps-on_vault _ (server.unseal_keeps k))) λ resp.
        Keeps-if (not resp.sealed) _ _ (Keeps-pure true)
          (Keeps-if (resp.progress == 0) _ _ (Keeps-raise _) (Keeps-pure false))

  Keeps-is_sealed : Keeps Safe (is_sealed u)
  unfolding is_sealed
  Keeps-is_sealed =
      Keeps-bind _ _ (Keeps-wrapping _ _ (Keeps-on_vault _ server.seal_status_keeps))
        λ resp. Keeps-pure resp.sealed

  check_vault-Safe : Keeps Safe (check_vault u)
  unfolding check_vault is_initialized
  check_vault-Safe = record {
    at = λ w safe.
        let safe' = (Keeps-on_vault _ server.init_status_keeps).at w safe in
        bind_keeps_at Safe (is_initialized u) (λ b. ensure_initialized u b >> is_sealed u) w
          (λ b p. known b (server.status_true w.vault (wrap_result_ok _ _ p) safe.0) _ safe') safe';
  }
    where
      known :
          (b : Bool)
          → b ≡ true
          → (w : World K V) → Safe w
          → Safe ((ensure_initialized u b >> is_sealed u) w).1
      known true e w safe = Keeps-is_sealed.at w safe
      known false e w safe = absurd (cc e)

  admin : Administers u.cl (Initialized initialized)
  admin = record {
    list_auth_keeps = server.list_auth_keeps;
    enable_auth_keeps = server.enable_auth_keeps;
    put_policy_keeps = server.put_policy_keeps;
    raw_request_keeps = server.raw_request_keeps;
    set_token_keeps = server.set_token_keeps;
  }

  step-Safe :
      (o : WorkerOptions) (fuel : ℕ) (s t : State K V)
      → step u o fuel s ≡ some t
      → Safe s.world
      → Safe t.world
  step-Safe o = step_keeps u Safe Keeps-unseal_round check_vault-Safe o (
      Keeps-configure_vault u.cl u.key_store (Initialized initialized) (λ k. holds k j ≡ x) admin
        (λ key. record { at = λ k h. store.get_keeps key k j ∙ h }) o
        (root_token_id o.unsealer_options.key_prefix))

pub keys_kept :
    {K V : Type 0} (u : Unsealer K V) (o : WorkerOptions) (holds : K → Text → Option Text)
    (store : KvValues u.key_store holds) (initialized : V → Bool)
    (server : StaysInitialized u.cl initialized) (s t : State K V)
    → Steps u o s t
    → initialized s.world.vault ≡ true
    → (initialized t.world.vault ≡ true)
      × ((j : Text) → holds t.world.store j ≡ holds s.world.store j)
keys_kept u o holds store initialized server s t run start = ((kept []).0, λ j. (kept j).1)
  where
    kept :
        (j : Text)
        → (initialized t.world.vault ≡ true) × (holds t.world.store j ≡ holds s.world.store j)
    kept j =
        Steps-invariant u o
          (λ r. Safe u holds store initialized server j (holds s.world.store j) r.world)
          (step-Safe u holds store initialized server j (holds s.world.store j) o) s t run
          (start, refl)

-- From a state at which the Vault server is initialized, no run of the loop changes what the key
-- store holds under any key, even if existing keys may be overwritten, and the server is
-- initialized at its end.
pub keys_survive :
    {K V : Type 0} (u : Unsealer K V) (o : WorkerOptions) (holds : K → Text → Option Text)
    (store : KvContract u.key_store holds) (initialized : V → Bool)
    (server : StaysInitialized u.cl initialized) (s t : State K V)
    → Steps u o s t
    → initialized s.world.vault ≡ true
    → (initialized t.world.vault ≡ true)
      × ((j : Text) → holds t.world.store j ≡ holds s.world.store j)
keys_survive u o holds store initialized server s t run start =
    keys_kept u o holds (KvContract-KvValues store) initialized server s t run start
