-- ===== src/Effect/Succeeds.antt =====
-- Calls that return without an error.
use unsealer.Prelude.{◌≡◌, refl, ap}
use unsealer.Text.{Text}
use unsealer.Effect.{Result, ok, err, Call, pure, wrapping, ◌>>=◌}

-- From states with `P` the call returns without an error, and its state has `P`.
pub record Succeeds {S A : Type 0} (P : S → Type 0) (m : Call S A) : Type 0 where
  pub at : (s : S) → P s → ((a : A) × ((m s).0 ≡ ok a)) × P (m s).1

module _ {S A B : Type 0} where
  bind_result_steps :
      (r : Result A) (s : S) (f : A → Call S B) {a : A}
      → r ≡ ok a
      → ((λ (t : S). (r, t)) >>= f) s ≡ f a s
  bind_result_steps (ok b) s f h = ap (λ x. f x s) (cc h)
  bind_result_steps (err e) s f h = absurd (cc h)

  -- A block whose first call returns `a`.
  pub bind_steps :
      (m : Call S A) (f : A → Call S B) (s : S) {a : A} → (m s).0 ≡ ok a → (m >>= f) s ≡ f a (m s).1
  bind_steps m f s h = bind_result_steps (m s).0 (m s).1 f h

module _ {S A : Type 0} {P : S → Type 0} where
  pub Succeeds-pure : (a : A) → Succeeds P (pure {S = S} a)
  Succeeds-pure a = record { at = λ s p. ((a, refl), p) }

  pub Succeeds-wrapping :
      (message : Text) (m : Call S A) → Succeeds P m → Succeeds P (wrapping message m)
  Succeeds-wrapping message m g = record {
    at = λ s p. let ((a, h), q) = g.at s p in ((a, rw h refl), q);
  }

module _ {S A B : Type 0} {P : S → Type 0} where
  pub Succeeds-bind :
      (m : Call S A) (f : A → Call S B)
      → Succeeds P m
      → ((a : A) → Succeeds P (f a))
      → Succeeds P (m >>= f)
  Succeeds-bind m f gm gf = record {
    at = λ s p. let ((a, h), q) = gm.at s p in rw (bind_steps m f s h) ((gf a).at (m s).1 q);
  }
