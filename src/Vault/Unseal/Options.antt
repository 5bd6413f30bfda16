-- ===== src/Vault/Unseal/Options.antt =====
-- pkg/vault/unseal/options.go: the defaults and the validation of the unsealer's options.
use unsealer.Prelude.{ℕ, ◌≤◌, ◌<◌, ◌≡◌, ◌↔◌, refl, true, false, List, [], ◌++◌, arith}
use unsealer.Prelude.Int.{ℤ, pos, negsuc, ltb_ℤ, leb_ℤ}
use unsealer.Text.{text}
use unsealer.Effect.{Error}
use unsealer.Validation.{complain, append-eq-nil, complain-eq-nil}
use unsealer.Vault.Unseal.Defs.{UnsealOptions}

-- `NewUnsealOptions`.
abbrev pub new_unseal_options : UnsealOptions
new_unseal_options = record {
  key_prefix = text "vault";
  secret_shares = pos 5;
  secret_threshold = pos 3;
  store_root_token = true;
  overwrite_existing = false;
}

unfoldable pub validate_unseal : UnsealOptions → List Error
validate_unseal o =
    complain (leb_ℤ o.secret_threshold (pos 0)) (text "secret threshold must be positive")
    ++ (complain (leb_ℤ o.secret_shares (pos 0)) (text "secret shares must be positive")
        ++ complain (ltb_ℤ o.secret_shares o.secret_threshold)
            (text "secret threshold must be less than or equal to secret shares"))

-- The options that `Validate` accepts.
abbrev pub AreValid : UnsealOptions → Type 0
AreValid o =
    (n : ℕ) × (t : ℕ) × (o.secret_shares ≡ pos n) × (o.secret_threshold ≡ pos t) × (0 < t) × (t ≤ n)

from_tests :
    (shares threshold : ℤ)
    → leb_ℤ threshold (pos 0) ≡ false
    → ltb_ℤ shares threshold ≡ false
    → (n : ℕ) × (t : ℕ) × (shares ≡ pos n) × (threshold ≡ pos t) × (0 < t) × (t ≤ n)
from_tests (pos n) (pos t) a b = (n, t, refl, refl, ground arith, ground arith)
from_tests (negsuc n) (pos t) a b = absurd (ground arith)
from_tests s (negsuc t) a b = absurd (ground arith)

-- `Validate` reports no error exactly when the threshold is positive and at most the number of
-- shares.
pub validate_unseal-eq-nil : (o : UnsealOptions) → (validate_unseal o ≡ []) ↔ AreValid o
unfolding validate_unseal
validate_unseal-eq-nil o = (
  λ h.
      let (a, bc) = append-eq-nil (complain (leb_ℤ o.secret_threshold (pos 0)) _) _ h in
      let (b, c) = append-eq-nil (complain (leb_ℤ o.secret_shares (pos 0)) _) _ bc in
      from_tests o.secret_shares o.secret_threshold (complain-eq-nil _ _ a) (complain-eq-nil _ _ c),
  λ (n, t, shares, threshold, positive, fits). rw (shares, threshold) (ground arith),
)
