-- ===== src/Vault/Unseal/Success.antt =====
-- `Unseal` of pkg/vault/unseal against the documented protocol, with the right keys in the key store.
use native.Mathlib.Nat.{zero-add}
use unsealer.Prelude.{
  ℕ, zero, suc, ◌+◌, ◌≤◌, ◌<◌, ◌≡◌, ◌∙◌, refl, ap, Bool, true, false, not, Option, some, List, [],
  ◌∷◌, ◌==◌, length, arith, if◌then◌else◌,
}
use unsealer.Text.{Text, text}
use unsealer.Effect.{Result, ok, err, plain}
use unsealer.Kv.Contract.{KvContract, KvAvailable}
use unsealer.Vault.Keys.{unseal_key_id}
use unsealer.Vault.World.{World}
use unsealer.Vault.Contract.{
  VaultView, VaultContract, VaultAvailable, contains, all_in, AllNew, submit,
}
use unsealer.Vault.Unseal.Defs.{Unsealer, unseal_round, unseal_from, unseal}
use unsealer.Vault.Unseal.Rounds.{unseal_from_unsealed, unseal_from_going_on}
use unsealer.Vault.Unseal.Termination.{round_keeps}

-- The key store holds `keys` as the unseal keys from index `i` on.
abbrev pub StoresFrom : {K : Type 0} → (K → Text → Option Text) → Text → K → ℕ → List Text → Type 0
StoresFrom holds prefix w i [] = Unit
StoresFrom holds prefix w i (k ∷ keys) =
    (holds w (unseal_key_id prefix i) ≡ some k) × StoresFrom holds prefix w (suc i) keys

-- What a round makes of the server's answer.
abbrev verdict : VaultView → Result Bool
verdict s =
    if not s.sealed
    then ok true
    else if length s.pending == 0
    then err (plain (text "failed to unseal the vault, progress is reset to 0"))
    else ok false

submit_more :
    (k : Text) (s : VaultView)
    → contains k s.pending ≡ false
    → suc (length s.pending) < s.threshold
    → submit k s ≡ record s { pending = k ∷ s.pending }
unfolding submit
submit_more k s new more = ground arith

submit_last :
    (k : Text) (s : VaultView)
    → contains k s.pending ≡ false
    → suc (length s.pending) ≡ s.threshold
    → all_in (k ∷ s.pending) s.shares ≡ true
    → submit k s ≡ record s { sealed = false; pending = [] }
unfolding submit
submit_last k s new last right = ground arith

module _ {K V : Type 0} (u : Unsealer K V) (holds : K → Text → Option Text) (view : V → VaultView)
    (store : KvContract u.key_store holds) (vault : VaultContract u.cl view)
    (store_up : KvAvailable u.key_store holds) (vault_up : VaultAvailable u.cl view) where
  abbrev key : ℕ → Text
  key i = unseal_key_id u.config.key_prefix i

  abbrev Stored : K → ℕ → List Text → Type 0
  Stored = StoresFrom holds u.config.key_prefix

  round_submits :
      (i : ℕ) (w : World K V) (k : Text)
      → holds w.store (key i) ≡ some k
      → (view w.vault).sealed ≡ true
      → all_in (k ∷ (view w.vault).pending) (view w.vault).shares ≡ true
      → (view (unseal_round u i w).1.vault ≡ submit k (view w.vault))
        × ((unseal_round u i w).0 ≡ verdict (submit k (view w.vault)))
  unfolding unseal_round
  round_submits i w k h sealed right =
      let (s, answer) = vault_up.unseal_answers k w.vault sealed right in
      ground
        (arith, store_up.get_found (key i) w.store k h, vault.unseal_ok k w.vault sealed answer)

  Stored-round :
      (i j : ℕ) (w : World K V) (keys : List Text)
      → Stored w.store j keys
      → Stored (unseal_round u i w).1.store j keys
  Stored-round i j w [] h = tt
  Stored-round i j w (k ∷ keys) h =
      (round_keeps u holds store i w (key j) ∙ h.0, Stored-round i (suc j) w keys h.1)

  unseal_from_succeeds :
      (keys : List Text) (fuel i : ℕ) (s : VaultView) (w : World K V)
      → view w.vault ≡ s
      → s.sealed ≡ true
      → Stored w.store i keys
      → AllNew keys s.pending
      → all_in keys s.shares ≡ true
      → all_in s.pending s.shares ≡ true
      → length s.pending + length keys ≡ s.threshold
      → 0 < length keys
      → length keys ≤ fuel
      → (w' : World K V) × (unseal_from u fuel i w ≡ some (ok tt, w'))
        × (view w'.vault ≡ record s { sealed = false; pending = [] })
  unseal_from_succeeds [] fuel i s w at sealed stored new right pending count some_left enough =
      absurd (omega arith)
  unseal_from_succeeds (k ∷ keys) zero i s w at sealed stored new right pending count some_left
        enough =
      absurd (omega arith)
  unseal_from_succeeds (k ∷ []) (suc fuel) i s w at sealed stored new right pending count some_left
        enough =
      let with_pending : all_in (k ∷ s.pending) s.shares ≡ true = ground arith in
      let (after, result) = round_submits i w k stored.0 (rw at sealed) (rw at with_pending) in
      let last : submit k (view w.vault) ≡ record s { sealed = false; pending = [] } =
        rw at (submit_last k s new.0 (omega arith) (ground arith)) in
      (
        (unseal_round u i w).1,
        unseal_from_unsealed u fuel i w (result ∙ ap verdict last),
        after ∙ last,
      )
  unseal_from_succeeds (k ∷ l ∷ keys) (suc fuel) i s w at sealed stored new right pending count
        some_left enough =
      let with_pending : all_in (k ∷ s.pending) s.shares ≡ true = ground arith in
      let (after, result) = round_submits i w k stored.0 (rw at sealed) (rw at with_pending) in
      let s' : VaultView = record s { pending = k ∷ s.pending } in
      let more : submit k (view w.vault) ≡ s' = rw at (submit_more k s new.0 (omega arith)) in
      let going : verdict s' ≡ ok false = ground arith in
      let (w', run, final) =
        unseal_from_succeeds (l ∷ keys) fuel (suc i) s' (unseal_round u i w).1 (after ∙ more) sealed
          (Stored-round i (suc i) w (l ∷ keys) stored.1) new.1 (ground arith) (ground arith)
          (omega arith) (omega arith) (omega arith) in
      (w', unseal_from_going_on u fuel i w (result ∙ ap verdict more ∙ going) ∙ run, final)

  -- If the key store holds the shares `keys`, as many as the threshold, under the unseal keys from
  -- index 0 on, if they are different and right, and no share is pending, then `Unseal` returns
  -- without an error after as many rounds as there are keys, and leaves the vault unsealed.
  pub unseal_succeeds :
      (keys : List Text) (w : World K V)
      → (view w.vault).sealed ≡ true
      → (view w.vault).pending ≡ []
      → StoresFrom holds u.config.key_prefix w.store 0 keys
      → AllNew keys []
      → all_in keys (view w.vault).shares ≡ true
      → length keys ≡ (view w.vault).threshold
      → 0 < length keys
      → (w' : World K V) × (unseal u (length keys) w ≡ some (ok tt, w'))
        × ((view w'.vault).sealed ≡ false)
  unfolding unseal
  unseal_succeeds keys w sealed none_pending stored new right count some_left =
      let (w', run, final) =
        unseal_from_succeeds keys (length keys) 0 (view w.vault) w refl sealed stored
          (rw none_pending new) right (rw none_pending refl) (rw none_pending (zero-add _ ∙ count))
          some_left (omega arith) in
      (w', run, rw final refl)
