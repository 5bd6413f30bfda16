-- ===== src/Worker/Complete.antt =====
-- The loop of pkg/worker at a new Vault server and an empty key store, from its first round until the
-- server is configured.
use mathlib.Core.Path.{subst}
use unsealer.Prelude.{
  ℕ, ◌≤◌, ◌<◌, ◌≡◌, ◌∙◌, ap, refl, true, false, not, ◌==◌, Option, none, some, arith,
}
use unsealer.Prelude.Int.{pos}
use unsealer.Text.{Text}
use unsealer.Effect.{ok}
use unsealer.Effect.Keeps.{Keeps, Keeps-bind, Keeps-wrapping, Keeps-if, Keeps-pure, Keeps-raise}
use unsealer.Effect.Succeeds.{bind_steps}
use unsealer.Kv.Contract.{KvContract, KvAvailable, CheckContract}
use unsealer.Vault.Keys.{unseal_key_id, root_token_id}
use unsealer.Vault.World.{World, on_store, on_vault}
use unsealer.Vault.Contract.{VaultView, VaultContract, VaultAvailable}
use unsealer.Vault.Unseal.Defs.{
  Unsealer, UnsealOptions, is_initialized, check_read_write_access, init, init_request,
  unseal_round,
}
use unsealer.Vault.Unseal.AccessCheck.{check_keeps_keys}
use unsealer.Vault.Unseal.InitStores.{init_stores}
use unsealer.Vault.Unseal.InitSucceeds.{InitAvailable, Empty, init_succeeds}
use unsealer.Vault.Unseal.Termination.{round_keeps}
use unsealer.Vault.Unseal.RoundTrip.{init_seals}
use unsealer.Worker.Options.{WorkerOptions}
use unsealer.Worker.Configure.{configure_vault}
use unsealer.Worker.Admin.{AdminView, AdminAvailable}
use unsealer.Worker.Configures.{configure_vault_succeeds}
use unsealer.Vault.Auth.Mounts.{new_mounts}
use unsealer.Worker.Invariants.{round_keeps_from, step-round}
use unsealer.Worker.Loop.{
  checking, configuring, State, initialize, check_vault, step, configured, configure_once,
  after_configure,
}
use unsealer.Worker.Unsealed.{StatusAvailable}
use unsealer.Worker.FirstRun.{ready, view-ready, check_vault_initializes, step_initializes}

module _ {K V : Type 0} (u : Unsealer K V) (o : WorkerOptions) (holds : K → Text → Option Text)
    (view : V → VaultView) (store : KvContract u.key_store holds)
    (check : CheckContract u.key_store holds) (vault : VaultContract u.cl view)
    (store_up : KvAvailable u.key_store holds) (vault_up : VaultAvailable u.cl view)
    (status_up : StatusAvailable u.cl) (init_up : InitAvailable u.cl view) (admin : V → AdminView)
    (admin_up : AdminAvailable u.cl view admin o) where
  abbrev key : ℕ → Text
  key i = unseal_key_id u.config.key_prefix i

  abbrev root : Text
  root = root_token_id u.config.key_prefix

  -- The world at which the first round calls `Init`.
  abbrev before_init : World K V → World K V
  before_init = ready u o holds view store vault store_up vault_up status_up

  Empty-before_init :
      (w : World K V)
      → Empty u holds view store store_up 0 w.store
      → Empty u holds view store store_up 0 (before_init w).store
  unfolding is_initialized
  Empty-before_init w empty =
      let (keys, token) = check_keeps_keys u holds check (is_initialized u w).1 in
      record { no_key = λ j le. keys j ∙ empty.no_key j le; no_token = token ∙ empty.no_token }

  initialize_succeeds :
      (n t : ℕ) (w : World K V)
      → u.config.secret_shares ≡ pos n
      → u.config.secret_threshold ≡ pos t
      → 1 < t
      → t ≤ n
      → n ≤ 255
      → (view w.vault).initialized ≡ false
      → Empty u holds view store store_up 0 w.store
      → ((initialize u (is_initialized u w).1).0 ≡ ok tt) × ((init u (before_init w)).0 ≡ ok tt)
  unfolding initialize check_read_write_access
  initialize_succeeds n t w shares threshold several fits allowed fresh empty =
      let w₁ = (is_initialized u w).1 in
      let still : (view (before_init w).vault).initialized ≡ false =
        ap (λ (v : VaultView). v.initialized)
          (view-ready u o holds view store vault store_up vault_up status_up w)
        ∙ fresh in
      let done =
        init_succeeds u holds view store store_up vault init_up n t (before_init w) shares threshold
          several fits allowed still (Empty-before_init w empty) in
      let checked : (check_read_write_access u w₁).0 ≡ ok tt =
        rw (store_up.check_succeeds w₁.store) refl in
      (ap (λ r. r.0) (bind_steps (check_read_write_access u) (λ _. init u) w₁ checked) ∙ done, done)

  Keeps-get :
      (x : AdminView) (id : Text)
      → Keeps (λ w. admin w.vault ≡ x) (on_store {V = V} (u.key_store.get id))
  Keeps-get x id = record { at = λ w h. h }

  Keeps-unseal :
      (x : AdminView) (k : Text) → Keeps (λ w. admin w.vault ≡ x) (on_vault {K = K} (u.cl.unseal k))
  Keeps-unseal x k = record { at = λ w h. admin_up.unseal_admin k w.vault ∙ h }

  Keeps-unseal_round : (x : AdminView) (i : ℕ) → Keeps (λ w. admin w.vault ≡ x) (unseal_round u i)
  unfolding unseal_round
  Keeps-unseal_round x i = Keeps-bind _ _ (Keeps-wrapping _ _ (Keeps-get x (key i))) λ k.
      Keeps-bind _ _ (Keeps-wrapping _ _ (Keeps-unseal x k)) λ resp.
        Keeps-if (not resp.sealed) _ _ (Keeps-pure true)
          (Keeps-if (resp.progress == 0) _ _ (Keeps-raise _) (Keeps-pure false))

  -- The root token that the first round stores is the server's, and the mounts are the first ones.
  token_stored :
      (t : ℕ) (s s' : State K V)
      → s.phase ≡ checking
      → u.config.store_root_token ≡ true
      → (view s.world.vault).initialized ≡ false
      → (initialize u (is_initialized u s.world).1).0 ≡ ok tt
      → (view (before_init s.world).vault).initialized ≡ false
      → (view (init u (before_init s.world)).1.vault).sealed ≡ true
      → (init u (before_init s.world)).0 ≡ ok tt
      → step u o t s ≡ some s'
      → (token : Text) × (holds s'.world.store root ≡ some token)
        × ((admin s'.world.vault).root_token ≡ token)
        × ((admin s'.world.vault).mounts ≡ new_mounts)
  token_stored t s s' phase kept fresh done still sealed inits run =
      let w = before_init s.world in
      let (resp, answered, at_vault, shares, stored) =
        init_stores u holds store w
          (λ r. vault.init_bytes (init_request u.config) w.vault {resp = r}) inits in
      let (is_true, same_store, same_vault) =
        check_vault_initializes u o holds view store vault store_up vault_up status_up s.world fresh
          done sealed in
      let (ran, period) = step-round u o t s s' phase run in
      let P : World K V → Type 0 = λ r. holds r.store root ≡ some resp.root_token in
      let rounds : (i : ℕ) → Keeps P (unseal_round u i) =
        λ i. record { at = λ r h. round_keeps u holds store i r root ∙ h } in
      let x = admin (u.cl.init (init_request u.config) w.vault).1 in
      let (is_root, bare) = admin_up.init_admin (init_request u.config) w.vault still answered in
      let checked_admin : admin (check_vault u s.world).1.vault ≡ x =
        ap admin same_vault ∙ admin_up.seal_status_admin (init u w).1.vault ∙ ap admin at_vault in
      let at_end : admin s'.world.vault ≡ x =
        round_keeps_from u (λ r. admin r.vault ≡ x) (Keeps-unseal_round x) t s.world s'.world
          s'.phase ran checked_admin in
      (
        resp.root_token,
        round_keeps_from u P rounds t s.world s'.world s'.phase ran
            (ap (λ (k : K). holds k root) same_store ∙ stored kept),
        ap (λ (a : AdminView). a.root_token) at_end ∙ is_root,
        ap (λ (a : AdminView). a.mounts) at_end ∙ bare,
      )

  -- With at most 255 shares, a threshold above one that is at most their number, an uninitialized
  -- vault, none of the unsealer's keys stored, the root token to be stored, and a key store and a
  -- server that answer, where the server need accept the configuration of the options only from a client that
  -- has sent the root token which its initialization has issued: one round of the outer loop and one
  -- configuration bring the loop back to the head of the outer loop, with the vault unsealed and
  -- `configureVault` done without an error.
  pub first_run :
      (n t : ℕ) (s : State K V)
      → s.phase ≡ checking
      → u.config ≡ o.unsealer_options
      → u.config.secret_shares ≡ pos n
      → u.config.secret_threshold ≡ pos t
      → u.config.store_root_token ≡ true
      → 1 < t
      → t ≤ n
      → n ≤ 255
      → (view s.world.vault).initialized ≡ false
      → ((i : ℕ) → holds s.world.store (unseal_key_id u.config.key_prefix i) ≡ none)
      → holds s.world.store (root_token_id u.config.key_prefix) ≡ none
      → (s' : State K V) × (s'' : State K V) × (step u o t s ≡ some s')
        × (step u o t s' ≡ some s'')
        × (s'.phase ≡ configuring)
        × ((configure_once u o s'.world).0 ≡ ok tt)
        × (s''.phase ≡ checking)
        × ((view s''.world.vault).sealed ≡ false)
  unfolding step
  first_run n t s phase same shares threshold kept several fits allowed fresh no_keys no_token =
      let empty : Empty u holds view store store_up 0 s.world.store = record {
        no_key = λ j le. no_keys j;
        no_token = no_token;
      } in
      let (done, inits) =
        initialize_succeeds n t s.world shares threshold several fits allowed fresh empty in
      let (s', run, on, opened) =
        step_initializes u o holds view store vault store_up vault_up status_up n t s phase shares
          threshold (omega arith) fits fresh done in
      let still : (view (before_init s.world).vault).initialized ≡ false =
        ap (λ (v : VaultView). v.initialized)
          (view-ready u o holds view store vault store_up vault_up status_up s.world)
        ∙ fresh in
      let sealed =
        init_seals u holds view store vault n t (before_init s.world) shares threshold still
          inits in
      let (token, held, is_root, bare) =
        token_stored t s s' phase kept fresh done still sealed inits run in
      let found = store_up.get_found root s'.world.store token held in
      let (returns, same_view) =
        configure_vault_succeeds u o view admin admin_up root token s'.world opened is_root bare
          found in
      let name : root ≡ root_token_id o.unsealer_options.key_prefix =
        ap (λ (c : UnsealOptions). root_token_id c.key_prefix) same in
      let id = root_token_id o.unsealer_options.key_prefix in
      let once : (configure_vault o u.cl u.key_store id s'.world).0 ≡ ok tt =
        subst (λ i. (configure_vault o u.cl u.key_store i s'.world).0 ≡ ok tt) name returns in
      let opened' : (view (configure_vault o u.cl u.key_store id s'.world).1.vault).sealed ≡ false =
        subst (λ i. (view (configure_vault o u.cl u.key_store i s'.world).1.vault).sealed ≡ false)
          name (ap (λ (v : VaultView). v.sealed) same_view ∙ opened) in
      (s', configured u o s', run, rw on refl, on, once, ap (after_configure u o) once, opened')
