-- ===== src/Text/Decimal.antt =====
-- The verb `%d` of package fmt, at a number that is not negative.
use unsealer.Prelude.{
  ℕ, zero, suc, ◌+◌, ◌-◌, ◌*◌, ◌/◌, ◌%◌, ◌<◌, ◌≡◌, refl, [], ◌∷◌, ◌++◌, arith, ltb, if◌then◌else◌,
  Bool-cases, inl, inr, tests, ◌≤◌,
}
use unsealer.Text.Defs.{Text}

-- The digits of `n`, most significant first, if the fuel passes `n`.
unfoldable pub decimal_fuel : ℕ → ℕ → Text
decimal_fuel zero n = []
decimal_fuel (suc f) n =
    let rest = decimal_fuel f (n / 10) in
    if ltb n 10 then (b'0' + n) ∷ [] else rest ++ (b'0' + n % 10) ∷ []

unfoldable pub decimal : ℕ → Text
unfolding decimal_fuel
decimal n = decimal_fuel (suc n) n

-- The number that digits stand for.
value_from : ℕ → Text → ℕ
value_from acc [] = acc
value_from acc (c ∷ s) = value_from (acc * 10 + (c - b'0')) s

value_from-snoc :
    (acc : ℕ) (s : Text) (c : ℕ) → value_from acc (s ++ c ∷ []) ≡ value_from acc s * 10 + (c - b'0')
unfolding value_from
value_from-snoc acc [] c = refl
value_from-snoc acc (d ∷ s) c = value_from-snoc (acc * 10 + (d - b'0')) s c

value-decimal_fuel : (f n : ℕ) → n < f → value_from 0 (decimal_fuel f n) ≡ n
unfolding decimal_fuel value_from
value-decimal_fuel zero n h = absurd (omega arith)
value-decimal_fuel (suc f) n h = ground (
  arith,
  value_from-snoc 0 (decimal_fuel f (n / 10)) (b'0' + n % 10),
  value-decimal_fuel f (n / 10),
)

value-decimal : (n : ℕ) → value_from 0 (decimal n) ≡ n
unfolding decimal
value-decimal n = value-decimal_fuel (suc n) n (omega arith)

pub decimal_injective : (m n : ℕ) → decimal m ≡ decimal n → m ≡ n
decimal_injective m n e = cc (value-decimal m, value-decimal n, e)

-- The byte that a text ends in, or `d` if it is empty.
unfoldable pub ends_in : ℕ → Text → ℕ
ends_in d [] = d
ends_in d (c ∷ s) = ends_in c s

pub ends_in-append : (d : ℕ) (s : Text) (c : ℕ) (t : Text) → ends_in d (s ++ c ∷ t) ≡ ends_in c t
unfolding ends_in
ends_in-append d [] c t = refl
ends_in-append d (b ∷ s) c t = ends_in-append b s c t

pub decimal-last : (n : ℕ) → (s : Text) × (c : ℕ) × (decimal n ≡ s ++ c ∷ []) × (c ≤ b'9')
unfolding decimal decimal_fuel
decimal-last n = elim (Bool-cases (ltb n 10)) [
  | inl small ↦ ([], b'0' + n, rw small, omega (tests, small))
  | inr large ↦ (decimal_fuel n (n / 10), b'0' + n % 10, rw large, omega arith)
]
