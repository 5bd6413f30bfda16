-- ===== src/Worker/LostShares.antt =====
-- The loop of pkg/worker after an `Init` that did not store as many shares as the threshold.
use native.Mathlib.Nat.{zero-add}
use unsealer.Prelude.{
  ℕ, zero, suc, ◌+◌, ◌≤◌, ◌<◌, ◌≡◌, ◌≢◌, ◌∙◌, ◌⊎◌, refl, sym, ap, true, false, Option, none, some,
  List, [], ◌∷◌, arith, inl, inr, Bool-cases, get_elem?, take, length, length-take, ltb, ◌==◌,
}
use unsealer.Prelude.Int.{pos}
use unsealer.Text.{Text, text_eq_refl}
use unsealer.Kv.Contract.{KvContract}
use unsealer.Vault.Keys.{unseal_key_id}
use unsealer.Vault.World.{World}
use unsealer.Vault.Contract.{VaultView, VaultContract, VaultFailures, contains}
use unsealer.Vault.Unseal.Defs.{Unsealer, init}
use unsealer.Vault.Unseal.Interrupted.{Stored}
use unsealer.Vault.Unseal.InitLeaves.{sealed_with, init_leaves}
use unsealer.Worker.Options.{WorkerOptions}
use unsealer.Worker.Loop.{checking, State}
use unsealer.Worker.Steps.{Steps}
use unsealer.Worker.TooFew.{too_few_keys, StoresKnown}

abbrev with_value : Option Text → List Text → List Text
with_value none keys = keys
with_value (some v) keys = v ∷ keys

contains-with_value :
    (o : Option Text) (k : Text) (keys : List Text)
    → (o ≡ some k) ⊎ (contains k keys ≡ true)
    → contains k (with_value o keys) ≡ true
contains-with_value none k keys (inl e) = absurd (cc e)
contains-with_value none k keys (inr h) = h
contains-with_value (some v) k keys (inl e) =
    let same : v ≡ k = cc e in rw same (ground (arith, text_eq_refl k))
contains-with_value (some v) k keys (inr h) = ground arith

length-with_value :
    (o : Option Text) (keys : List Text)
    → ((o ≡ none) × (length (with_value o keys) ≡ length keys))
      ⊎ ((v : Text) × (o ≡ some v) × (length (with_value o keys) ≡ suc (length keys)))
length-with_value none keys = inl (refl, refl)
length-with_value (some v) keys = inr (v, refl, refl)

contains-take :
    (n m : ℕ) (k : Text) (keys : List Text)
    → n < m
    → get_elem? keys n ≡ some k
    → contains k (take m keys) ≡ true
contains-take n zero k keys less at = absurd (omega arith)
contains-take n (suc m) k [] less at = absurd (cc at)
contains-take zero (suc m) k (j ∷ keys) less at =
    let same : j ≡ k = cc at in rw same (ground (arith, text_eq_refl k))
contains-take (suc n) (suc m) k (j ∷ keys) less at =
    ground (arith, contains-take n m k keys (omega arith) at)

get_elem-below :
    (n : ℕ) (keys : List Text) → n < length keys → (k : Text) × (get_elem? keys n ≡ some k)
get_elem-below n [] less = absurd (omega arith)
get_elem-below zero (k ∷ keys) less = (k, refl)
get_elem-below (suc n) (k ∷ keys) less = get_elem-below n keys (omega arith)

module _ {K V : Type 0} (u : Unsealer K V) (holds : K → Text → Option Text) (view : V → VaultView)
    (store : KvContract u.key_store holds) (vault : VaultContract u.cl view)
    (failures : VaultFailures u.cl view) where
  abbrev key : ℕ → Text
  key i = unseal_key_id u.config.key_prefix i

  -- The values that the key store can hold under unseal keys.
  abbrev known_of :
      {keys : List Text} {w : K} (after : K) → Stored u holds store keys 0 w after → List Text
  known_of {keys} after stored = with_value (holds after (key stored.done)) (take stored.done keys)

  Stored-StoresKnown :
      (keys : List Text) (w after : K) (stored : Stored u holds store keys 0 w after)
      → ((i : ℕ) → holds w (key i) ≡ none)
      → StoresKnown u holds view store vault failures (known_of after stored) after
  Stored-StoresKnown keys w after stored bare i k held = elim (Bool-cases (ltb i stored.done)) [
    | inl less ↦
        let below : i < stored.done = ground arith in
        let (l, at) = get_elem-below i keys (omega (arith, stored.within)) in
        let same : some l ≡ some k =
          sym (stored.stored i l below at) ∙ ap (λ j. holds after (key j)) (zero-add i) ∙ held in
        contains-with_value (holds after (key stored.done)) k (take stored.done keys)
          (inr (contains-take i stored.done k keys below (at ∙ same)))
    | inr more ↦ elim (Bool-cases (i == stored.done)) [
      | inl here ↦
          let at : stored.done ≡ i = ground arith in
          contains-with_value (holds after (key stored.done)) k (take stored.done keys)
            (inl (ap (λ j. holds after (key j)) at ∙ held))
      | inr past ↦
          let above : 0 + stored.done < i = ground arith in
          absurd (cc (stored.above i above, bare i, held))
    ]
  ]

  length-known_of :
      (keys : List Text) (w after : K) (stored : Stored u holds store keys 0 w after) (m t : ℕ)
      → m < t
      → holds after (key m) ≡ none
      → length (known_of after stored) < t
  length-known_of keys w after stored m t less missing =
      let count = length-take stored.done keys stored.within in
      let fewer : stored.done ≤ m = not_past (Bool-cases (ltb m stored.done)) in
      elim (length-with_value (holds after (key stored.done)) (take stored.done keys)) [
        | inl (bare, same) ↦ omega arith
        | inr (v, held, more) ↦ elim (Bool-cases (stored.done == m)) [
          | inl here ↦
              let same : stored.done ≡ m = ground arith in
              absurd (cc (ap (λ j. holds after (key j)) same, held, missing))
          | inr before ↦ let apart : stored.done ≢ m = ground arith in omega arith
        ]
      ]
    where
      not_past : (ltb m stored.done ≡ true) ⊎ (ltb m stored.done ≡ false) → stored.done ≤ m
      not_past (inr h) = ground arith
      not_past (inl h) =
          let below : m < stored.done = ground arith in
          let (l, at) = get_elem-below m keys (omega (arith, stored.within)) in
          absurd
            (cc (stored.stored m l below at, ap (λ j. holds after (key j)) (zero-add m), missing))

-- With no unseal key in the key store, at an uninitialized vault with a threshold of `t`: if `Init`
-- initializes the server, but the unseal key of an index `m` below `t` is then not stored, then no
-- run of the loop from there unseals the vault or comes to the configuration.
pub lost_shares :
    {K V : Type 0} (u : Unsealer K V) (o : WorkerOptions) (holds : K → Text → Option Text)
    (view : V → VaultView) (store : KvContract u.key_store holds) (vault : VaultContract u.cl view)
    (failures : VaultFailures u.cl view) (n t m : ℕ) (w : World K V) (s r : State K V)
    → u.config.secret_shares ≡ pos n
    → u.config.secret_threshold ≡ pos t
    → m < t
    → (view w.vault).initialized ≡ false
    → ((i : ℕ) → holds w.store (unseal_key_id u.config.key_prefix i) ≡ none)
    → (view (init u w).1.vault).initialized ≡ true
    → holds (init u w).1.store (unseal_key_id u.config.key_prefix m) ≡ none
    → s.phase ≡ checking
    → s.world ≡ (init u w).1
    → Steps u o s r
    → (r.phase ≡ checking) × ((view r.world.vault).sealed ≡ true)
lost_shares u o holds view store vault failures n t m w s r shares threshold less fresh bare started
      missing phase at run =
    elim (init_leaves u holds view store vault failures n t w shares threshold fresh) [
      | inl same ↦ absurd (cc (ap (λ v. v.initialized) same, fresh, started))
      | inr (keys, now, stored) ↦
          let now' : view s.world.vault ≡ sealed_with t keys = rw at now in
          too_few_keys u o holds view store vault failures
            (known_of u holds view store vault failures (init u w).1.store stored) s r run phase
            (rw now' refl) (rw now' refl) (rw now' refl)
            (rw at (
              Stored-StoresKnown u holds view store vault failures keys w.store (init u w).1.store
                stored bare))
            (rw now' (
              length-known_of u holds view store vault failures keys w.store (init u w).1.store
                stored m t less missing))
    ]
