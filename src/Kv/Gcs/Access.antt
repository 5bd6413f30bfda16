-- ===== src/Kv/Gcs/Access.antt =====
-- `CheckWriteAccess` of pkg/kv/gcs, with and without a prefix.
use mathlib.Core.List.{append_cancel_right}
use unsealer.Prelude.{◌≢◌, ◌≡◌, ◌∙◌, refl, false, Option, none, [], ◌++◌, arith, inl, inr}
use unsealer.Text.{Text, text, text_eq, text_eq_refl, text_ne}
use unsealer.Effect.{Error, err, wrapped, Result-cases}
use unsealer.Kv.Defs.{dummy_key, dummy_value}
use unsealer.Kv.Contract.{CheckContract}
use unsealer.Kv.Gcs.Defs.{
  Object, GcsStorage, object_name_with_prefix, at, set, get, check_write_access, service,
}
use unsealer.Effect.{wrapping}
use unsealer.Effect.Keeps.{Keeps-bind, Keeps-wrapping}
use unsealer.Kv.Gcs.Contract.{
  object_eq-of_key, GcsContract, of_key, stored, object_eq, set_frame, get_keeps,
}

module _ {K : Type 0} (g : GcsStorage K) (objects : K → Object → Option Text)
    (gcs : GcsContract g.cl objects) where
  dummy_name :
      g.prefix ≢ [] → text_eq (object_name_with_prefix g.prefix dummy_key) dummy_key ≡ false
  unfolding object_name_with_prefix
  dummy_name prefixed =
      text_ne (g.prefix ++ dummy_key) dummy_key
        (λ e. prefixed (append_cancel_right g.prefix [] dummy_key e))

  dummy_object :
      g.prefix ≡ []
      → (j : Text) → text_eq dummy_key j ≡ false
      → object_eq (at g dummy_key) (of_key g objects gcs j) ≡ false
  unfolding object_name_with_prefix
  dummy_object bare j other = rw (bare, text_eq_refl g.bucket) other

  -- With a prefix, if no object has the unprefixed dummy name, the check fails.
  pub check_fails :
      (w : K)
      → g.prefix ≢ []
      → objects w (at g dummy_key) ≡ none
      → (e : Error) × ((check_write_access g w).0 ≡ err e)
  unfolding check_write_access
  check_fails w prefixed absent =
      let w₁ = (set g dummy_key dummy_value w).1 in
      let w₂ = (get g dummy_key w₁).1 in
      let still : objects w₂ (at g dummy_key) ≡ none =
        get_keeps g objects gcs dummy_key w₁ (at g dummy_key)
        ∙ set_frame g objects gcs dummy_key dummy_value w (at g dummy_key)
            (rw (text_eq_refl g.bucket) (dummy_name prefixed))
        ∙ absent in
      let (e, refused) = gcs.delete_missing (at g dummy_key) w₂ still in
      elim (Result-cases (set g dummy_key dummy_value w).0) [
        | inl (done, p) ↦ elim (Result-cases (get g dummy_key w₁).0) [
          | inl (v, q) ↦ (wrapped (text "failed to delete test file: ") e, ground arith)
          | inr (f, q) ↦ (wrapped (text "failed to get test file: ") f, ground arith)
        ]
        | inr (f, p) ↦ (wrapped (text "failed to write test file: ") f, ground arith)
      ]

  check_frame :
      g.prefix ≡ []
      → (w : K) (j : Text) → text_eq dummy_key j ≡ false
      → stored g objects gcs (check_write_access g w).1 j ≡ stored g objects gcs w j
  unfolding check_write_access
  check_frame bare w j other =
      let o : Object = of_key g objects gcs j in
      let P : K → Type 0 = λ w'. objects w' o ≡ objects w o in
      let differs : object_eq (of_key g objects gcs dummy_key) o ≡ false =
        object_eq-of_key g objects gcs dummy_key j ∙ other in
      let unprefixed : object_eq (at g dummy_key) o ≡ false = dummy_object bare j other in
      (Keeps-bind {P = P}
          (wrapping (text "failed to write test file: ") (set g dummy_key dummy_value)) _
          (record { at = λ w' h. set_frame g objects gcs dummy_key dummy_value w' o differs ∙ h })
          λ written.
            Keeps-bind (wrapping (text "failed to get test file: ") (get g dummy_key)) _
              (record { at = λ w' h. get_keeps g objects gcs dummy_key w' o ∙ h })
              λ v.
                Keeps-wrapping (text "failed to delete test file: ") (g.cl.delete (at g dummy_key))
                  (record {
                    at = λ w' h. gcs.delete_frame (at g dummy_key) w' o unprefixed ∙ h;
                  })).at
        w refl

  -- With no prefix, the access check leaves every key but its own as it was.
  pub check-CheckContract : g.prefix ≡ [] → CheckContract (service g) (stored g objects gcs)
  unfolding service
  check-CheckContract bare = record { check_frame = check_frame bare }
