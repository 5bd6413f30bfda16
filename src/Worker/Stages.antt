-- ===== src/Worker/Stages.antt =====
-- The stage of the vault through a round of the loop of pkg/worker.
use unsealer.Prelude.{
  ℕ, zero, suc, ◌≡◌, ◌∙◌, sym, ap, refl, Bool, true, false, Option, some, arith, inl, inr,
}
use unsealer.Prelude.Int.{pos}
use unsealer.Text.{Text}
use unsealer.Effect.{Result, ok, Result-cases, wrap_result_ok, bind_ok, ◌>>◌}
use unsealer.Effect.Keeps.{bind_keeps_at}
use unsealer.Kv.Contract.{KvContract}
use unsealer.Vault.Keys.{unseal_key_id}
use unsealer.Vault.World.{World}
use unsealer.Vault.Contract.{VaultView, VaultContract, VaultFailures, submit}
use unsealer.Vault.Unseal.Defs.{
  Unsealer, is_initialized, is_sealed, check_read_write_access, init, unseal_round, unseal_from,
}
use unsealer.Vault.Unseal.InitLeaves.{init_leaves}
use unsealer.Vault.Unseal.RoundTrip.{after_init}
use unsealer.Vault.Unseal.Rounds.{
  round_end, unsealed, going_on, failed, unseal_from_unsealed, unseal_from_going_on,
  unseal_from_failed, round_got, round_missed,
}
use unsealer.Vault.Unseal.Soundness.{round_sealed}
use unsealer.Worker.Loop.{ensure_initialized, initialize, check_vault}
use unsealer.Worker.Lifecycle.{Stage, closed, opened, stage_of, Grew, same, begun}

module _ {K V : Type 0} (u : Unsealer K V) (holds : K → Text → Option Text) (view : V → VaultView)
    (store : KvContract u.key_store holds) (vault : VaultContract u.cl view)
    (failures : VaultFailures u.cl view) (n t : ℕ) (shares : u.config.secret_shares ≡ pos n)
    (threshold : u.config.secret_threshold ≡ pos t) where
  abbrev pub stage : World K V → Stage
  stage w = stage_of (view w.vault)

  abbrev pub Grown : World K V → World K V → Type 0
  Grown w r = Grew (stage w) (stage r)

  Grown-same : (w r : World K V) → view r.vault ≡ view w.vault → Grown w r
  Grown-same w r e = rw e (same (stage w))

  is_sealed_keeps : (w : World K V) → view (is_sealed u w).1.vault ≡ view w.vault
  unfolding is_sealed
  is_sealed_keeps w = ground (arith, vault.seal_status_keeps w.vault)

  is_initialized_keeps : (w : World K V) → view (is_initialized u w).1.vault ≡ view w.vault
  unfolding is_initialized
  is_initialized_keeps w = vault.init_status_keeps w.vault

  initialize_grows :
      (w : World K V) → (view w.vault).initialized ≡ false → Grown w (initialize u w).1
  unfolding initialize check_read_write_access
  initialize_grows w new =
      let w₁ = (check_read_write_access u w).1 in
      bind_keeps_at (Grown w) (check_read_write_access u) (λ _. init u) w
        (λ checked _.
          elim (init_leaves u holds view store vault failures n t w₁ shares threshold new) [
            | inl kept ↦ Grown-same w (init u w₁).1 kept
            | inr (keys, now, stored) ↦ rw (now, new) begun
          ])
        (Grown-same w w₁ refl)

  ensure_grows :
      (b : Bool) (w : World K V)
      → b ≡ (view w.vault).initialized
      → Grown w (ensure_initialized u b w).1
  ensure_grows true w e = Grown-same w w refl
  ensure_grows false w e = initialize_grows w (sym e)

  pub check_vault_grows : (w : World K V) → Grown w (check_vault u w).1
  unfolding check_vault
  check_vault_grows w =
      let w₁ = (is_initialized u w).1 in
      let same₁ = is_initialized_keeps w in
      bind_keeps_at (Grown w) (is_initialized u) (λ b. ensure_initialized u b >> is_sealed u) w
        (λ b asked.
          let w₂ = (ensure_initialized u b w₁).1 in
          let now : b ≡ (view w₁.vault).initialized =
            unfold is_initialized in
            vault.init_status_ok w.vault (wrap_result_ok _ _ asked)
            ∙ ap (λ (v : VaultView). v.initialized) (sym same₁) in
          let grown : Grown w w₂ = rw same₁ at (ensure_grows b w₁ now) in
          bind_keeps_at (Grown w) (ensure_initialized u b) (λ _. is_sealed u) w₁
            (λ done _. rw (is_sealed_keeps w₂) grown) grown)
        (Grown-same w w₁ same₁)

  initialize_done :
      (w : World K V)
      → (view w.vault).initialized ≡ false
      → (initialize u w).0 ≡ ok tt
      → (view (initialize u w).1.vault).initialized ≡ true
  unfolding initialize check_read_write_access
  initialize_done w new h =
      let w₁ = (check_read_write_access u w).1 in
      let (checked, ready, run) = bind_ok (check_read_write_access u) (λ _. init u) w h in
      let inits : (init u w₁).0 ≡ ok tt = ap (λ r. r.0) (sym run) ∙ h in
      let (keys, now, count, different, stored) =
        after_init u holds view store vault n t w₁ shares threshold new inits in
      rw (run, now) refl

  ensure_done :
      (b : Bool) (w : World K V)
      → b ≡ (view w.vault).initialized
      → (ensure_initialized u b w).0 ≡ ok tt
      → (view (ensure_initialized u b w).1.vault).initialized ≡ true
  ensure_done true w e h = sym e
  ensure_done false w e h = initialize_done w (sym e) h

  -- A round that gets an answer on the seal is at an initialized vault.
  pub check_vault_done :
      (w : World K V) {b : Bool}
      → (check_vault u w).0 ≡ ok b
      → (view (check_vault u w).1.vault).initialized ≡ true
  unfolding check_vault
  check_vault_done w h =
      let w₁ = (is_initialized u w).1 in
      let (i, asked, run) =
        bind_ok (is_initialized u) (λ i. ensure_initialized u i >> is_sealed u) w h in
      let w₂ = (ensure_initialized u i w₁).1 in
      let (done, ready, run₂) =
        bind_ok (ensure_initialized u i) (λ _. is_sealed u) w₁ (ap (λ r. r.0) (sym run) ∙ h) in
      let now : i ≡ (view w₁.vault).initialized =
        unfold is_initialized in
        vault.init_status_ok w.vault (wrap_result_ok _ _ asked)
        ∙ ap (λ (v : VaultView). v.initialized) (sym (is_initialized_keeps w)) in
      rw (run ∙ run₂, is_sealed_keeps w₂) (ensure_done i w₁ now ready)

  submit_initialized :
      (k : Text) (v : VaultView) → v.initialized ≡ true → (submit k v).initialized ≡ true
  unfolding submit
  submit_initialized k v h = ground arith

  round_initialized :
      (i : ℕ) (w : World K V)
      → (view w.vault).sealed ≡ true
      → (view w.vault).initialized ≡ true
      → (view (unseal_round u i w).1.vault).initialized ≡ true
  round_initialized i w sealed h =
      elim (Result-cases (u.key_store.get (unseal_key_id u.config.key_prefix i) w.store).0) [
        | inl (k, p) ↦ rw (round_got u i w p) (submitted k)
        | inr (e, p) ↦ rw (round_missed u i w p) h
      ]
    where
      submitted : (k : Text) → (view (u.cl.unseal k w.vault).1).initialized ≡ true
      submitted k =
          let next = submit_initialized k (view w.vault) h in
          elim (Result-cases (u.cl.unseal k w.vault).0) [
            | inl (s, q) ↦ rw ((vault.unseal_ok k w.vault sealed q).0) next
            | inr (e, q) ↦ elim (failures.unseal_err k w.vault sealed q) [
              | inl kept ↦ rw kept h
              | inr done ↦ rw done next
            ]
          ]

  pub unseal_from_initialized :
      (fuel i : ℕ) (w w' : World K V) (r : Result Unit)
      → (view w.vault).sealed ≡ true
      → (view w.vault).initialized ≡ true
      → unseal_from u fuel i w ≡ some (r, w')
      → (view w'.vault).initialized ≡ true
  unseal_from_initialized zero i w w' r sealed h run = unfold unseal_from in absurd (cc run)
  unseal_from_initialized (suc fuel) i w w' r sealed h run =
      let w₁ = (unseal_round u i w).1 in
      let now = round_initialized i w sealed h in
      elim (round_end (unseal_round u i w).0) [
        | unsealed p ↦
            let here : w₁ ≡ w' = cc (unseal_from_unsealed u fuel i w p, run) in rw (← here) now
        | going_on p ↦
            unseal_from_initialized fuel (suc i) w₁ w' r
              (round_sealed u view vault i w false sealed p) now
              (sym (unseal_from_going_on u fuel i w p) ∙ run)
        | failed e p ↦
            let here : w₁ ≡ w' = cc (unseal_from_failed u fuel i w p, run) in rw (← here) now
      ]

  pub stage-closed : (v : VaultView) → v.initialized ≡ true → v.sealed ≡ true → stage_of v ≡ closed
  stage-closed v h k = rw (h, k) refl

  pub stage-opened : (v : VaultView) → v.initialized ≡ true → v.sealed ≡ false → stage_of v ≡ opened
  stage-opened v h k = rw (h, k) refl
