-- ===== src/Vault/Distinct.antt =====
-- Lists of different shares, and how many of them can come from a list of known ones.
use unsealer.Prelude.{
  suc, ◌≤◌, ◌≡◌, ◌∙◌, sym, ap, refl, true, false, List, [], ◌∷◌, length, arith, inl, inr,
  Bool-cases, if◌then◌else◌,
}
use unsealer.Text.{Text, text_eq, text_eq_iff, text_eq_refl, text_ne}
use unsealer.Vault.Contract.{contains, all_in}

abbrev pub Distinct : List Text → Type 0
Distinct [] = Unit
Distinct (k ∷ keys) = (contains k keys ≡ false) × Distinct keys

unfoldable remove : Text → List Text → List Text
remove k [] = []
remove k (j ∷ keys) = if text_eq k j then keys else j ∷ remove k keys

length-remove :
    (k : Text) (keys : List Text)
    → contains k keys ≡ true
    → suc (length (remove k keys)) ≡ length keys
unfolding remove
length-remove k [] h = absurd (cc h)
length-remove k (j ∷ keys) h = elim (Bool-cases (text_eq k j)) [
  | inl same ↦ rw same refl
  | inr other ↦ rw other (ap suc (length-remove k keys (ground arith)))
]

text_eq-comm_false : (k l : Text) → text_eq k l ≡ false → text_eq l k ≡ false
text_eq-comm_false k l h = text_ne l k (λ e. absurd (cc (h, text_eq_refl k, e)))

-- Another text is found where one is removed.
contains-remove :
    (k l : Text) (keys : List Text)
    → text_eq l k ≡ false
    → contains l keys ≡ true
    → contains l (remove k keys) ≡ true
unfolding remove
contains-remove k l [] other h = h
contains-remove k l (j ∷ keys) other h = elim (Bool-cases (text_eq k j)) [
  | inl same ↦
      let at : text_eq l j ≡ false = ap (text_eq l) (sym ((text_eq_iff k j).0 same)) ∙ other in
      ground arith
  | inr differs ↦ elim (Bool-cases (text_eq l j)) [
    | inl here ↦ ground arith
    | inr later ↦ ground (arith, contains-remove k l keys other)
  ]
]

all_in-remove :
    (k : Text) (ks keys : List Text)
    → contains k ks ≡ false
    → all_in ks keys ≡ true
    → all_in ks (remove k keys) ≡ true
all_in-remove k [] keys new h = refl
all_in-remove k (l ∷ ks) keys new h = elim (Bool-cases (text_eq k l)) [
  | inl same ↦ absurd (ground arith)
  | inr other ↦
      ground
        (arith, contains-remove k l keys (text_eq-comm_false k l other), all_in-remove k ks keys)
]

pub length-Distinct :
    (ks keys : List Text) → Distinct ks → all_in ks keys ≡ true → length ks ≤ length keys
length-Distinct [] keys h inside = omega arith
length-Distinct (k ∷ ks) keys h inside =
    let rest =
      length-Distinct ks (remove k keys) h.1 (all_in-remove k ks keys h.0 (ground arith)) in
    let one = length-remove k keys (ground arith) in omega arith
