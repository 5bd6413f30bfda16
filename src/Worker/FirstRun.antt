-- ===== src/Worker/FirstRun.antt =====
-- The loop of pkg/worker at a new Vault server.
use unsealer.Prelude.{ℕ, ◌≤◌, ◌<◌, ◌≡◌, ◌∙◌, sym, ap, refl, true, false, Option, some, arith}
use unsealer.Prelude.Int.{pos}
use unsealer.Text.{Text}
use unsealer.Effect.{ok, bind_ok}
use unsealer.Kv.Contract.{KvContract, KvAvailable}
use unsealer.Vault.World.{World}
use unsealer.Vault.Contract.{VaultView, VaultContract, VaultAvailable}
use unsealer.Vault.Unseal.Defs.{Unsealer, is_initialized, is_sealed, check_read_write_access, init}
use unsealer.Vault.Unseal.RoundTrip.{unseal_after_init, init_seals}
use unsealer.Worker.Options.{WorkerOptions}
use unsealer.Worker.Loop.{
  checking, configuring, State, initialize, check_vault, round, step, checked,
}
use unsealer.Worker.Unsealed.{StatusAvailable}

module _ {K V : Type 0} (u : Unsealer K V) (o : WorkerOptions) (holds : K → Text → Option Text)
    (view : V → VaultView) (store : KvContract u.key_store holds) (vault : VaultContract u.cl view)
    (store_up : KvAvailable u.key_store holds) (vault_up : VaultAvailable u.cl view)
    (status_up : StatusAvailable u.cl) where
  -- The world at which the round calls `Init`.
  abbrev pub ready : World K V → World K V
  ready w = (check_read_write_access u (is_initialized u w).1).1

  initialize_ok :
      (w : World K V)
      → (initialize u w).0 ≡ ok tt
      → let w₁ = (check_read_write_access u w).1 in
        ((init u w₁).0 ≡ ok tt) × (initialize u w ≡ init u w₁)
  unfolding initialize
  initialize_ok w h =
      let (done, checks, same) = bind_ok (check_read_write_access u) (λ _. init u) w h in
      (ap (λ r. r.0) (sym same) ∙ h, same)

  pub view-ready : (w : World K V) → view (ready w).vault ≡ view w.vault
  unfolding check_read_write_access is_initialized
  view-ready w = vault.init_status_keeps w.vault

  -- The calls of the round up to the seal status.
  pub check_vault_initializes :
      (w : World K V)
      → (view w.vault).initialized ≡ false
      → (initialize u (is_initialized u w).1).0 ≡ ok tt
      → (view (init u (ready w)).1.vault).sealed ≡ true
      → ((check_vault u w).0 ≡ ok true)
        × ((check_vault u w).1.store ≡ (init u (ready w)).1.store)
        × ((check_vault u w).1.vault ≡ (u.cl.seal_status (init u (ready w)).1.vault).1)
  unfolding check_vault is_initialized is_sealed
  check_vault_initializes w fresh done sealed =
      let (b, p) = status_up.init_status_answers w.vault in
      let b_false : b ≡ false = vault.init_status_ok w.vault p ∙ fresh in
      let w₃ = (init u (ready w)).1 in
      let (s, q) = status_up.seal_status_answers w₃.vault in
      let s_true : s.sealed ≡ true = vault.seal_status_ok w₃.vault q ∙ sealed in
      let (inits, same) = initialize_ok (is_initialized u w).1 done in
      (
        ground (arith, b_false, s_true, inits, same),
        ground (arith, b_false, s_true, inits, same),
        ground (arith, b_false, s_true, inits, same),
      )

  -- With a positive threshold that is at most the number of shares, at an uninitialized vault: if
  -- the access check and `Init` return without an error, and the key store and the server answer,
  -- then this same round of the outer loop unseals the vault and goes on to the configuration.
  pub step_initializes :
      (n t : ℕ) (s : State K V)
      → s.phase ≡ checking
      → u.config.secret_shares ≡ pos n
      → u.config.secret_threshold ≡ pos t
      → 0 < t
      → t ≤ n
      → (view s.world.vault).initialized ≡ false
      → (initialize u (is_initialized u s.world).1).0 ≡ ok tt
      → (s' : State K V) × (step u o t s ≡ some s')
        × (s'.phase ≡ configuring)
        × ((view s'.world.vault).sealed ≡ false)
  unfolding step round
  step_initializes n t s phase shares threshold positive fits fresh done =
      let w = s.world in
      let (inits, _) = initialize_ok (is_initialized u w).1 done in
      let still : (view (ready w).vault).initialized ≡ false =
        ap (λ v. v.initialized) (view-ready w) ∙ fresh in
      let sealed = init_seals u holds view store vault n t (ready w) shares threshold still inits in
      let (is_true, same_store, same_vault) = check_vault_initializes w fresh done sealed in
      let same_view = ap view same_vault ∙ vault.seal_status_keeps (init u (ready w)).1.vault in
      let (w', run, opened) =
        unseal_after_init u holds view store vault store_up vault_up n t (ready w)
          (check_vault u w).1 shares threshold positive fits still inits same_store same_view in
      (checked u o s (configuring, w'), rw (phase, is_true, run) refl, refl, opened)
