-- ===== src/Validation.antt =====
-- `Validate() []error` of the options: a list of errors, built by one test after the other.
use unsealer.Prelude.{◌≡◌, refl, Bool, true, false, List, [], ◌∷◌, ◌++◌}
use unsealer.Text.{Text, text_eq}
use unsealer.Effect.{Error, plain}

-- `if bad { errs = append(errs, errors.New(message)) }`
abbrev pub complain : Bool → Text → List Error
complain true message = plain message ∷ []
complain false message = []

-- `s == ""`
abbrev pub is_blank : Text → Bool
is_blank s = text_eq s []

-- No errors of two groups of tests are no errors of either.
pub append-eq-nil : (s t : List Error) → s ++ t ≡ [] → (s ≡ []) × (t ≡ [])
append-eq-nil [] t h = (refl, h)
append-eq-nil (e ∷ s) t h = absurd (cc h)

pub complain-eq-nil : (b : Bool) (message : Text) → complain b message ≡ [] → b ≡ false
complain-eq-nil true message h = absurd (cc h)
complain-eq-nil false message h = refl
