-- ===== src/Kv/Azure/Base.antt =====
-- Go's `filepath.Base`, which pkg/kv/azure takes the version of an identifier by.
use unsealer.Prelude.{
  ℕ, ◌≡◌, refl, Bool, true, false, not, ◌&&◌, ◌||◌, [], ◌∷◌, arith, ◌==◌, if◌then◌else◌, Bool-cases,
  inl, inr,
}
use unsealer.Text.{Text}

abbrev pub is_empty : Text → Bool
is_empty [] = true
is_empty (c ∷ s) = false

unfoldable pub strip_slashes : Text → Text
strip_slashes [] = []
strip_slashes (c ∷ s) =
    let rest = strip_slashes s in if is_empty rest && c == b'/' then [] else c ∷ rest

unfoldable pub has_slash : Text → Bool
has_slash [] = false
has_slash (c ∷ s) = c == b'/' || has_slash s

unfoldable pub last_component : Text → Text
unfolding has_slash
last_component [] = []
last_component (c ∷ s) =
    let rest = last_component s in if has_slash s then rest else if c == b'/' then s else c ∷ s

unfoldable pub base : Text → Text
unfolding strip_slashes last_component
base s =
    if is_empty s
    then b'.' ∷ []
    else if is_empty (strip_slashes s)
    then b'/' ∷ []
    else last_component (strip_slashes s)

-- The text does not end in a slash.
ends_plain : Text → Bool
ends_plain [] = true
ends_plain (c ∷ []) = not (c == b'/')
ends_plain (c ∷ d ∷ s) = ends_plain (d ∷ s)

ends_plain-cons :
    (c : ℕ) (s : Text)
    → ends_plain s ≡ true
    → is_empty s && c == b'/' ≡ false
    → ends_plain (c ∷ s) ≡ true
unfolding ends_plain
ends_plain-cons c [] h k = ground arith
ends_plain-cons c (d ∷ s) h k = h

ends_plain-strip_slashes : (s : Text) → ends_plain (strip_slashes s) ≡ true
unfolding strip_slashes
ends_plain-strip_slashes [] = unfold ends_plain in refl
ends_plain-strip_slashes (c ∷ s) = elim (Bool-cases (is_empty (strip_slashes s) && c == b'/')) [
  | inl dropped ↦ rw dropped (unfold ends_plain in refl)
  | inr kept ↦ rw kept (ends_plain-cons c (strip_slashes s) (ends_plain-strip_slashes s) kept)
]

last_component_ne :
    (s : Text) → ends_plain s ≡ true → is_empty s ≡ false → is_empty (last_component s) ≡ false
unfolding ends_plain last_component has_slash
last_component_ne [] h k = absurd (cc k)
last_component_ne (c ∷ []) h k = ground arith
last_component_ne (c ∷ d ∷ s) h k = ground (arith, last_component_ne (d ∷ s) h refl)

pub is_empty-base : (s : Text) → is_empty (base s) ≡ false
unfolding base
is_empty-base s = ground (arith, last_component_ne (strip_slashes s) (ends_plain-strip_slashes s))
