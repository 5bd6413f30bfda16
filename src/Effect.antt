-- ===== src/Effect.antt =====
-- Go's `error` values and the calls that return them. A call that reaches an external system takes
-- that system's state and gives back the next one, after an error too: what was written stays
-- written.
pub mod Keeps
pub mod Succeeds
use unsealer.Prelude.{◌≡◌, refl, ◌⊎◌, inl, inr}
use unsealer.Text.{Text}

-- The program tells errors apart by their dynamic type only: `*kv.NotFoundError`, the sentinel
-- `storage.ErrObjectNotExist`, and an API status that `kerror.IsNotFound` accepts. All others are
-- `plain`. `wrapped` is an error of `fmt.Errorf` or `errors.Wrap` around a cause, of another type
-- than its cause. The fields are the parts of the message, which the program only logs.
pub data Error : Type 0 where
  not_found_error : Text → Error
  not_found_because : Text → Error → Error
  object_not_exist : Error
  api_not_found : Error
  plain : Text → Error
  wrapped : Text → Error → Error

pub data Result (A : Type 0) : Type 0 where
  ok : A → Result A
  err : Error → Result A

abbrev pub Call : Type 0 → Type 0 → Type 0
Call S A = S → Result A × S

-- `if err != nil { return fmt.Errorf("...%s", err.Error()) }`, `errors.Wrap(err, "...")`
abbrev pub wrap_result : {A : Type 0} → Text → Result A → Result A
wrap_result message (ok a) = ok a
wrap_result message (err e) = err (wrapped message e)

module _ {S A : Type 0} where
  abbrev pub pure : A → Call S A
  pure a s = (ok a, s)

  abbrev pub raise : Error → Call S A
  raise e s = (err e, s)

  abbrev pub wrapping : Text → Call S A → Call S A
  wrapping message m s = let (r, s') = m s in (wrap_result message r, s')

infixl 5 ◌>>=◌ ◌>>◌
abbrev pub ◌>>=◌ : {S A B : Type 0} → Call S A → (A → Call S B) → Call S B
◌>>=◌ m f s = let (r, s') = m s in elim r [ ok a ↦ f a s' | err e ↦ raise e s' ]

abbrev pub ◌>>◌ : {S A B : Type 0} → Call S A → Call S B → Call S B
m >> k = m >>= λ _. k

pub Result-cases :
    {A : Type 0} (r : Result A) → ((a : A) × (r ≡ ok a)) ⊎ ((e : Error) × (r ≡ err e))
Result-cases (ok a) = inl (a, refl)
Result-cases (err e) = inr (e, refl)

-- Inversion of a block that returns without an error.
bind_result :
    {S A B : Type 0} (r : Result A) (s : S) (f : A → Call S B) {b : B}
    → (((λ (t : S). (r, t)) >>= f) s).0 ≡ ok b
    → (a : A) × (r ≡ ok a) × ((((λ (t : S). (r, t)) >>= f) s) ≡ f a s)
bind_result (ok a) s f h = (a, refl, refl)
bind_result (err e) s f h = absurd (cc h)

pub bind_ok :
    {S A B : Type 0} (m : Call S A) (f : A → Call S B) (s : S) {b : B}
    → ((m >>= f) s).0 ≡ ok b
    → (a : A) × ((m s).0 ≡ ok a) × ((m >>= f) s ≡ f a (m s).1)
bind_ok m f s h = bind_result (m s).0 (m s).1 f h

pub wrap_result_ok :
    {A : Type 0} (message : Text) (r : Result A) {a : A} → wrap_result message r ≡ ok a → r ≡ ok a
wrap_result_ok message (ok a) h = h
wrap_result_ok message (err e) h = absurd (cc h)
