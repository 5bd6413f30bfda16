-- ===== src/Vault/Unseal/KeyLoop.antt =====
-- The loop of `Init` of pkg/vault/unseal that lists the unseal keys to test, over the `int` of a
-- machine: its values are those from -half to half - 1, and `i++` wraps around.
use unsealer.Prelude.{
  ℕ, zero, suc, ◌+◌, ◌≤◌, ◌<◌, ◌≡◌, ◌≢◌, ◌∙◌, ◌⊎◌, refl, sym, ap, true, false, Option, none, some,
  List, [], ◌∷◌, ◌++◌, append_assoc, append-nil, arith, inl, inr, ◌==◌, Bool-cases, if◌then◌else◌,
}
use unsealer.Prelude.Int.{ℤ, pos, negsuc, leb_ℤ, pos_part}
use unsealer.Text.{Text, text}
use unsealer.Text.Decimal.{decimal}
use unsealer.Vault.Keys.{unseal_key_id, root_token_id}
use unsealer.Vault.Unseal.Defs.{UnsealOptions, unseal_key_ids, keys_to_test, rounds_through}

-- `i++`
unfoldable pub next_int : ℕ → ℤ → ℤ
next_int half (pos n) = if suc n == half then negsuc n else pos (suc n)
next_int half (negsuc zero) = pos 0
next_int half (negsuc (suc n)) = negsuc n

-- `UnsealKeyID` at any `int`: `%d` writes a sign before a negative one.
unfoldable pub unseal_key_id_int : Text → ℤ → Text
unfolding unseal_key_id
unseal_key_id_int prefix (pos n) = unseal_key_id prefix n
unseal_key_id_int prefix (negsuc n) = prefix ++ (text "-unseal-key--" ++ decimal (suc n))

module _ (half : ℕ) (c : UnsealOptions) where
  -- The loop from `i` on, with the keys so far; `none` if the fuel runs out.
  unfoldable pub unseal_key_loop : ℕ → ℤ → List Text → Option (List Text)
  unfolding unseal_key_id_int next_int
  unseal_key_loop zero i keys = none
  unseal_key_loop (suc fuel) i keys =
      let rest =
        unseal_key_loop fuel (next_int half i) (keys ++ unseal_key_id_int c.key_prefix i ∷ []) in
      if leb_ℤ i c.secret_shares then rest else some keys

  next_int_pos : (i : ℕ) → suc i < half → next_int half (pos i) ≡ pos (suc i)
  unfolding next_int
  next_int_pos i small = ground arith

  next_int_small : (n : ℕ) (i : ℤ) → suc n ≡ half → pos_part i ≤ n → pos_part (next_int half i) ≤ n
  unfolding next_int
  next_int_small n (pos i) largest small = ground arith
  next_int_small n (negsuc zero) largest small = omega arith
  next_int_small n (negsuc (suc i)) largest small = omega arith

  -- From an index `i` with `m` more to go, below the largest `int`.
  unseal_key_loop_ends :
      (m i fuel n : ℕ) (keys : List Text)
      → c.secret_shares ≡ pos n
      → i + m ≡ suc n
      → suc n < half
      → m < fuel
      → unseal_key_loop fuel (pos i) keys ≡ some (keys ++ unseal_key_ids c.key_prefix i m)
  unfolding unseal_key_loop unseal_key_ids
  unseal_key_loop_ends m i zero n keys shares count small enough = absurd (omega arith)
  unseal_key_loop_ends zero i (suc fuel) n keys shares count small enough =
      let past : leb_ℤ (pos i) c.secret_shares ≡ false = rw shares (ground arith) in
      rw (past, append-nil keys) refl
  unseal_key_loop_ends (suc m) i (suc fuel) n keys shares count small enough =
      let rest =
        unseal_key_loop_ends m (suc i) fuel n (keys ++ unseal_key_id c.key_prefix i ∷ []) shares
          (omega arith) small (omega arith) in
      let within : leb_ℤ (pos i) c.secret_shares ≡ true = rw shares (ground arith) in
      let join =
        append_assoc keys (unseal_key_id c.key_prefix i ∷ [])
          (unseal_key_ids c.key_prefix (suc i) m) in
      rw within (
        ap (λ j. unseal_key_loop fuel j (keys ++ unseal_key_id c.key_prefix i ∷ []))
          (next_int_pos i (omega arith))
        ∙ rest
        ∙ ap some join)

  -- At the largest `int`, every index passes the test.
  unseal_key_loop_endless :
      (fuel n : ℕ) (i : ℤ) (keys : List Text)
      → c.secret_shares ≡ pos n
      → suc n ≡ half
      → pos_part i ≤ n
      → unseal_key_loop fuel i keys ≡ none
  unfolding unseal_key_loop
  unseal_key_loop_endless zero n i keys shares largest small = refl
  unseal_key_loop_endless (suc fuel) n i keys shares largest small =
      let within : leb_ℤ i c.secret_shares ≡ true = rw shares (ground arith) in
      rw within (
        unseal_key_loop_endless fuel n (next_int half i)
          (keys ++ unseal_key_id_int c.key_prefix i ∷ []) shares largest
          (next_int_small n i largest small))

  -- The keys that `Init` lists with `n` secret shares are those to test, after `n + 2` rounds of the
  -- loop at most, unless `n` is the largest `int` of the machine: then the loop never ends.
  pub unseal_key_loop-keys_to_test :
      (n : ℕ)
      → c.secret_shares ≡ pos n
      → n < half
      → (unseal_key_loop (suc (suc n)) (pos 0) (root_token_id c.key_prefix ∷ [])
          ≡ some (keys_to_test c))
        ⊎ ((suc n ≡ half)
            × ((fuel : ℕ) → unseal_key_loop fuel (pos 0) (root_token_id c.key_prefix ∷ []) ≡ none))
  unfolding keys_to_test
  unseal_key_loop-keys_to_test n shares fits = elim (Bool-cases (suc n == half)) [
    | inl largest ↦
        let most : suc n ≡ half = ground arith in
        inr (
          most,
          λ fuel.
              unseal_key_loop_endless fuel n (pos 0) (root_token_id c.key_prefix ∷ []) shares most
                (omega arith),
        )
    | inr smaller ↦
        let below : suc n ≢ half = ground arith in
        inl (
          unseal_key_loop_ends (suc n) 0 (suc (suc n)) n (root_token_id c.key_prefix ∷ []) shares
            (omega arith) (omega arith) (omega arith)
          ∙ ap
              (λ s.
                some
                  (root_token_id c.key_prefix ∷ unseal_key_ids c.key_prefix 0 (rounds_through s)))
              (sym shares))
  ]
