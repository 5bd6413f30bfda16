-- ===== src/Worker/Unsealed.antt =====
-- The worker against the protocol of the Vault server: when the loop goes on to configure.
use unsealer.Prelude.{
  ℕ, ◌<◌, ◌≡◌, ◌∙◌, sym, ap, refl, Bool, true, false, Option, none, some, List, [], arith, inl, inr,
  length,
}
use unsealer.Text.{Text}
use unsealer.Effect.{Result, ok, err, Result-cases, bind_ok, ◌>>◌}
use unsealer.Kv.Contract.{KvContract, KvAvailable}
use unsealer.Vault.Client.{VaultClient, SealStatus}
use unsealer.Vault.World.{World}
use unsealer.Vault.Contract.{VaultView, VaultContract, VaultAvailable, AllNew, all_in}
use unsealer.Vault.Unseal.Defs.{Unsealer, is_initialized, is_sealed, unseal}
use unsealer.Vault.Unseal.Soundness.{unseal_sound}
use unsealer.Vault.Unseal.Success.{StoresFrom, unseal_succeeds}
use unsealer.Worker.Options.{WorkerOptions}
use unsealer.Worker.Loop.{
  checking, configuring, State, check_vault, ensure_initialized, round, step, unseal_if,
  after_unseal, map_option, checked,
}

-- A server that answers the two questions on its state.
pub record StatusAvailable {V : Type 0} (c : VaultClient V) : Type 0 where
  pub init_status_answers : (v : V) → (b : Bool) × ((c.init_status v).0 ≡ ok b)
  pub seal_status_answers : (v : V) → (s : SealStatus) × ((c.seal_status v).0 ≡ ok s)

module _ {K V : Type 0} (u : Unsealer K V) (view : V → VaultView)
    (vault : VaultContract u.cl view) where
  is_sealed_true :
      (w : World K V) (b : Bool)
      → (is_sealed u w).0 ≡ ok b
      → (view (is_sealed u w).1.vault).sealed ≡ b
  unfolding is_sealed
  is_sealed_true w b h = elim (Result-cases (u.cl.seal_status w.vault).0) [
    | inl (s, p) ↦ ground (arith, vault.seal_status_ok w.vault p, vault.seal_status_keeps w.vault)
    | inr (e, p) ↦ absurd (ground arith)
  ]

  pub check_vault_true :
      (w : World K V) (b : Bool)
      → (check_vault u w).0 ≡ ok b
      → (view (check_vault u w).1.vault).sealed ≡ b
  unfolding check_vault
  check_vault_true w b h =
      let (i, asked, same) =
        bind_ok (is_initialized u) (λ i. ensure_initialized u i >> is_sealed u) w h in
      let w₁ = (is_initialized u w).1 in
      let (done, ready, same₂) =
        bind_ok (ensure_initialized u i) (λ _. is_sealed u) w₁ (ap (λ r. r.0) (sym same) ∙ h) in
      let both = same ∙ same₂ in
      rw both (is_sealed_true (ensure_initialized u i w₁).1 b (ap (λ r. r.0) (sym both) ∙ h))

  -- If a round of the outer loop goes on to the configuration, then the vault is unsealed, whatever
  -- failed before it.
  pub round_sound :
      (fuel : ℕ) (w w' : World K V)
      → round u fuel w ≡ some (configuring, w')
      → (view w'.vault).sealed ≡ false
  unfolding round
  round_sound fuel w w' h =
      after (check_vault u w).0 (check_vault u w).1 (check_vault_true w true) h
    where
      after_run :
          (o : Option (Result Unit × World K V))
          → map_option u (after_unseal u) o ≡ some (configuring, w')
          → o ≡ some (ok tt, w')
      after_run none h = absurd (cc h)
      after_run (some (ok done, v)) h = ap (λ x. some (ok tt, x)) (cc h)
      after_run (some (err e, v)) h = absurd (cc h)

      after :
          (r : Result Bool) (v : World K V)
          → (r ≡ ok true → (view v.vault).sealed ≡ true)
          → unseal_if u fuel r v ≡ some (configuring, w')
          → (view w'.vault).sealed ≡ false
      after (err e) v sealed h = absurd (cc h)
      after (ok false) v sealed h = absurd (cc h)
      after (ok true) v sealed h =
          unseal_sound u view vault fuel v w' (sealed refl) (after_run (unseal u fuel v) h)

module _ {K V : Type 0} (u : Unsealer K V) (o : WorkerOptions) (holds : K → Text → Option Text)
    (view : V → VaultView) (store : KvContract u.key_store holds) (vault : VaultContract u.cl view)
    (store_up : KvAvailable u.key_store holds) (vault_up : VaultAvailable u.cl view)
    (status_up : StatusAvailable u.cl) where
  check_vault_sealed :
      (w : World K V)
      → (view w.vault).initialized ≡ true
      → (view w.vault).sealed ≡ true
      → ((check_vault u w).0 ≡ ok true)
        × (view (check_vault u w).1.vault ≡ view w.vault)
        × ((check_vault u w).1.store ≡ w.store)
  unfolding check_vault is_initialized is_sealed
  check_vault_sealed w initialized sealed =
      let (b, p) = status_up.init_status_answers w.vault in
      let v₁ = (u.cl.init_status w.vault).1 in
      let (s, q) = status_up.seal_status_answers v₁ in
      let b_true : b ≡ true = vault.init_status_ok w.vault p ∙ initialized in
      let kept : view v₁ ≡ view w.vault = vault.init_status_keeps w.vault in
      let s_true : s.sealed ≡ true = vault.seal_status_ok v₁ q ∙ rw kept sealed in
      (
        ground (arith, b_true, s_true),
        ground (arith, b_true, s_true, vault.seal_status_keeps v₁ ∙ kept),
        ground (arith, b_true, s_true),
      )

  -- If the vault is initialized and sealed, no share is pending, the key store holds different and
  -- right shares, as many as the threshold, under the unseal keys from index 0 on, and everything
  -- answers, then one round of the outer loop unseals the vault and goes on to the configuration,
  -- and the loop sleeps for the retry period before the next round.
  pub step_unseals :
      (keys : List Text) (s : State K V)
      → s.phase ≡ checking
      → (view s.world.vault).initialized ≡ true
      → (view s.world.vault).sealed ≡ true
      → (view s.world.vault).pending ≡ []
      → StoresFrom holds u.config.key_prefix s.world.store 0 keys
      → AllNew keys []
      → all_in keys (view s.world.vault).shares ≡ true
      → length keys ≡ (view s.world.vault).threshold
      → 0 < length keys
      → (t : State K V) × (step u o (length keys) s ≡ some t)
        × (t.phase ≡ configuring)
        × (t.period ≡ o.retry_period)
        × ((view t.world.vault).sealed ≡ false)
  unfolding step round
  step_unseals keys s phase initialized sealed fresh stored new right count some_left =
      let w₁ = (check_vault u s.world).1 in
      let (is_true, same, kept) = check_vault_sealed s.world initialized sealed in
      let (w', run, opened) =
        unseal_succeeds u holds view store vault store_up vault_up keys w₁ (rw same sealed)
          (rw same fresh) (rw kept stored) new (rw same right) (rw same count) some_left in
      (checked u o s (configuring, w'), rw (phase, is_true, run) refl, refl, refl, opened)
