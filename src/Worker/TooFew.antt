-- ===== src/Worker/TooFew.antt =====
-- The loop of pkg/worker at a key store with fewer shares than the Vault server needs.
use unsealer.Prelude.{
  ℕ, suc, ◌<◌, ◌≡◌, ◌∙◌, ◌⊎◌, sym, ap, refl, Bool, true, false, List, [], ◌∷◌, Option, some, arith,
  inl, inr, length, ltb, Bool-cases,
}
use unsealer.Text.{Text}
use unsealer.Effect.{◌>>◌, Result-cases, wrap_result_ok}
use unsealer.Effect.Keeps.{Keeps, Keeps-pure, Keeps-wrapping, Keeps-bind, bind_keeps_at}
use unsealer.Kv.Contract.{KvContract}
use unsealer.Vault.Keys.{unseal_key_id}
use unsealer.Vault.World.{World}
use unsealer.Vault.Contract.{VaultView, VaultContract, VaultFailures, submit, contains, all_in}
use unsealer.Vault.Distinct.{Distinct, length-Distinct}
use unsealer.Vault.Client.{SealStatus}
use unsealer.Vault.Unseal.Rounds.{round_got, round_missed}
use unsealer.Vault.Unseal.Defs.{Unsealer, is_initialized, is_sealed, unseal_round}
use unsealer.Worker.Options.{WorkerOptions}
use unsealer.Worker.Loop.{
  Phase, checking, configuring, State, ensure_initialized, check_vault, step,
}
use unsealer.Worker.Invariants.{round_keeps, step-round}
use unsealer.Worker.Steps.{Steps, Steps-invariant}
use unsealer.Worker.Unsealed.{round_sound}

-- The vault is sealed, and the shares it has got are different ones of the known.
pub record Shut (known : List Text) (v : VaultView) : Type 0 where
  pub initialized : v.initialized ≡ true
  pub sealed : v.sealed ≡ true
  pub too_few : length known < v.threshold
  pub different : Distinct v.pending
  pub inside : all_in v.pending known ≡ true

submit-Shut :
    (known : List Text) (k : Text) (v : VaultView)
    → contains k known ≡ true
    → Shut known v
    → Shut known (submit k v)
unfolding submit
submit-Shut known k v is_known shut = elim (Bool-cases (contains k v.pending)) [
  | inl again ↦ rw again shut
  | inr new ↦
      let inside : all_in (k ∷ v.pending) known ≡ true = ground (arith, shut.inside) in
      let count = length-Distinct (k ∷ v.pending) known (new, shut.different) inside in
      let few : ltb (suc (length v.pending)) v.threshold ≡ true = ground (arith, shut.too_few) in
      rw (new, few)
        (record {
          initialized = shut.initialized;
          sealed = shut.sealed;
          too_few = shut.too_few;
          different = (new, shut.different);
          inside = inside;
        })
]

phase-cases : (p : Phase) → (p ≡ checking) ⊎ (p ≡ configuring)
phase-cases checking = inl refl
phase-cases configuring = inr refl

module _ {K V : Type 0} (u : Unsealer K V) (holds : K → Text → Option Text) (view : V → VaultView)
    (store : KvContract u.key_store holds) (vault : VaultContract u.cl view)
    (failures : VaultFailures u.cl view) (known : List Text) where
  -- Every share that is stored under an unseal key is one of the known.
  abbrev pub StoresKnown : K → Type 0
  StoresKnown w =
      (i : ℕ) (k : Text)
      → holds w (unseal_key_id u.config.key_prefix i) ≡ some k
      → contains k known ≡ true

  abbrev Closed : World K V → Type 0
  Closed w = Shut known (view w.vault) × StoresKnown w.store

  unseal-Shut :
      (k : Text) (v : V)
      → contains k known ≡ true
      → Shut known (view v)
      → Shut known (view (u.cl.unseal k v).1)
  unseal-Shut k v is_known shut =
      let next = submit-Shut known k (view v) is_known shut in
      elim (Result-cases (u.cl.unseal k v).0) [
        | inl (s, p) ↦ rw ((vault.unseal_ok k v shut.sealed p).0) next
        | inr (e, p) ↦ elim (failures.unseal_err k v shut.sealed p) [
          | inl same ↦ rw same shut
          | inr submitted ↦ rw submitted next
        ]
      ]

  Keeps-unseal_round : (i : ℕ) → Keeps Closed (unseal_round u i)
  Keeps-unseal_round i = record {
    at = λ w closed.
        let key = unseal_key_id u.config.key_prefix i in
        let stores : StoresKnown (u.key_store.get key w.store).1 =
          λ j k h. closed.1 j k (sym (store.get_keeps key w.store _) ∙ h) in
        elim (Result-cases (u.key_store.get key w.store).0) [
          | inl (k, p) ↦
              let is_known = closed.1 i k (store.get_ok key w.store p) in
              rw (round_got u i w p) (unseal-Shut k w.vault is_known closed.0, stores)
          | inr (e, p) ↦ rw (round_missed u i w p) (closed.0, stores)
        ];
  }

  Keeps-is_sealed : Keeps Closed (is_sealed u)
  unfolding is_sealed
  Keeps-is_sealed =
      Keeps-bind _ _
        (Keeps-wrapping _ _
          (record { at = λ w closed. (rw (vault.seal_status_keeps w.vault) closed.0, closed.1) }))
        λ (resp : SealStatus). Keeps-pure resp.sealed

  check_vault-Closed : Keeps Closed (check_vault u)
  unfolding check_vault is_initialized
  check_vault-Closed = record {
    at = λ w closed.
        let closed' : Closed (is_initialized u w).1 =
          (rw (vault.init_status_keeps w.vault) closed.0, closed.1) in
        bind_keeps_at Closed (is_initialized u) (λ b. ensure_initialized u b >> is_sealed u) w
          (λ b p.
            known_at b (vault.init_status_ok w.vault (wrap_result_ok _ _ p) ∙ closed.0.initialized)
              _ closed')
          closed';
  }
    where
      known_at :
          (b : Bool)
          → b ≡ true
          → (w : World K V) → Closed w
          → Closed ((ensure_initialized u b >> is_sealed u) w).1
      known_at true e w closed = Keeps-is_sealed.at w closed
      known_at false e w closed = absurd (cc e)

  abbrev Locked : State K V → Type 0
  Locked s = (s.phase ≡ checking) × Closed s.world

  step-Locked :
      (o : WorkerOptions) (fuel : ℕ) (s t : State K V)
      → step u o fuel s ≡ some t
      → Locked s
      → Locked t
  step-Locked o fuel s t h locked =
      let (ran, period) = step-round u o fuel s t locked.0 h in
      let closed =
        round_keeps u Closed Keeps-unseal_round check_vault-Closed fuel s.world t.world t.phase ran
          locked.1 in
      elim (phase-cases t.phase) [
        | inl still ↦ (still, closed)
        | inr on ↦
            let opened =
              round_sound u view vault fuel s.world t.world
                (ran ∙ ap (λ p. some (p, t.world)) on) in
            absurd (cc (opened, closed.0.sealed))
      ]

-- If the values under the unseal keys are all among `known`, which are fewer than the threshold, and
-- the vault is initialized and sealed and has no share pending, then no run of the loop unseals the
-- vault or comes to the configuration, whatever calls fail.
pub too_few_keys :
    {K V : Type 0} (u : Unsealer K V) (o : WorkerOptions) (holds : K → Text → Option Text)
    (view : V → VaultView) (store : KvContract u.key_store holds) (vault : VaultContract u.cl view)
    (failures : VaultFailures u.cl view) (known : List Text) (s t : State K V)
    → Steps u o s t
    → s.phase ≡ checking
    → (view s.world.vault).initialized ≡ true
    → (view s.world.vault).sealed ≡ true
    → (view s.world.vault).pending ≡ []
    → StoresKnown u holds view store vault failures known s.world.store
    → length known < (view s.world.vault).threshold
    → (t.phase ≡ checking) × ((view t.world.vault).sealed ≡ true)
too_few_keys u o holds view store vault failures known s t run phase initialized sealed none_pending
      stored few =
    let locked =
      Steps-invariant u o (Locked u holds view store vault failures known)
        (step-Locked u holds view store vault failures known o) s t run
        (
          phase,
          (
            record {
              initialized = initialized;
              sealed = sealed;
              too_few = few;
              different = rw none_pending tt;
              inside = rw none_pending refl;
            },
            stored,
          ),
        ) in
    (locked.0, locked.1.0.sealed)
