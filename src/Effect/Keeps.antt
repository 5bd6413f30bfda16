-- ===== src/Effect/Keeps.antt =====
-- Predicates on the state that a call keeps, whether it returns or fails.
use unsealer.Prelude.{◌≡◌, refl, Bool, true, false, if◌then◌else◌}
use unsealer.Text.{Text}
use unsealer.Effect.{Error, Result, ok, err, Call, pure, raise, wrapping, ◌>>=◌}

pub record Keeps {S A : Type 0} (P : S → Type 0) (m : Call S A) : Type 0 where
  pub at : (s : S) → P s → P (m s).1

module _ {S A : Type 0} {P : S → Type 0} where
  pub Keeps-pure : (a : A) → Keeps P (pure {S = S} a)
  Keeps-pure a = record { at = λ s h. h }

  pub Keeps-raise : (e : Error) → Keeps P (raise {S = S} {A = A} e)
  Keeps-raise e = record { at = λ s h. h }

  pub Keeps-wrapping : (message : Text) (m : Call S A) → Keeps P m → Keeps P (wrapping message m)
  Keeps-wrapping message m k = record { at = λ s h. k.at s h }

  pub Keeps-if : (b : Bool) (m n : Call S A) → Keeps P m → Keeps P n → Keeps P (if b then m else n)
  Keeps-if true m n km kn = km
  Keeps-if false m n km kn = kn

module _ {S A B : Type 0} {P : S → Type 0} where
  bind_at :
      (r : Result A) (s : S) (f : A → Call S B)
      → ((a : A) → Keeps P (f a))
      → P s
      → P (((λ (t : S). (r, t)) >>= f) s).1
  bind_at (ok a) s f kf h = (kf a).at s h
  bind_at (err e) s f kf h = h

  pub Keeps-bind :
      (m : Call S A) (f : A → Call S B) → Keeps P m → ((a : A) → Keeps P (f a)) → Keeps P (m >>= f)
  Keeps-bind m f km kf = record { at = λ s h. bind_at (m s).0 (m s).1 f kf (km.at s h) }

module _ {S A B : Type 0} (P : S → Type 0) where
  result_keeps :
      (r : Result A) (s : S) (f : A → Call S B)
      → ((a : A) → r ≡ ok a → P (f a s).1)
      → P s
      → P (((λ (t : S). (r, t)) >>= f) s).1
  result_keeps (ok a) s f kf h = kf a refl
  result_keeps (err e) s f kf h = h

  -- The rule for a block at one state, where the result of the first call is known to the rest.
  pub bind_keeps_at :
      (m : Call S A) (f : A → Call S B) (s : S)
      → ((a : A) → (m s).0 ≡ ok a → P (f a (m s).1).1)
      → P (m s).1
      → P ((m >>= f) s).1
  bind_keeps_at m f s kf h = result_keeps (m s).0 (m s).1 f kf h
