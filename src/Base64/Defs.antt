-- ===== src/Base64/Defs.antt =====
-- The encoder works on three bytes at a time, the decoder on four characters, after it has dropped
-- the line ends. The last group may be padded.
use unsealer.Prelude.{
  ◌++◌, ℕ, ◌+◌, ◌-◌, ◌*◌, ◌/◌, ◌%◌, Bool, true, false, ◌&&◌, ◌||◌, Option, none, some, [], ◌∷◌, ltb,
  leb, ◌==◌, if◌then◌else◌,
}
use unsealer.Text.{Text}

-- The character for six bits.
unfoldable pub sextet : ℕ → ℕ
sextet n =
    if ltb n 26
    then b'A' + n
    else if ltb n 52
    then b'a' + (n - 26)
    else if ltb n 62
    then b'0' + (n - 52)
    else if n == 62
    then b'+'
    else b'/'

unfoldable pub unsextet : ℕ → Option ℕ
unsextet c =
    if leb b'A' c && leb c b'Z'
    then some (c - b'A')
    else if leb b'a' c && leb c b'z'
    then some (c - b'a' + 26)
    else if leb b'0' c && leb c b'9'
    then some (c - b'0' + 52)
    else if c == b'+'
    then some 62
    else if c == b'/'
    then some 63
    else none

unfoldable pub encode : Text → Text
unfolding sextet
encode [] = []
encode (a ∷ []) = sextet (a / 4) ∷ sextet (a % 4 * 16) ∷ b'=' ∷ b'=' ∷ []
encode (a ∷ b ∷ []) =
    sextet (a / 4) ∷ sextet (a % 4 * 16 + b / 16) ∷ sextet (b % 16 * 4) ∷ b'=' ∷ []
encode (a ∷ b ∷ c ∷ bytes) =
    sextet (a / 4)
    ∷ sextet (a % 4 * 16 + b / 16)
    ∷ sextet (b % 16 * 4 + c / 64)
    ∷ sextet (c % 64)
    ∷ encode bytes

unfoldable pub drop_line_ends : Text → Text
drop_line_ends [] = []
drop_line_ends (c ∷ s) = if c == b'\n' || c == b'\r' then drop_line_ends s else c ∷ drop_line_ends s

abbrev pub with_sextet : ℕ → (ℕ → Option Text) → Option Text
with_sextet c k = elim (unsextet c) [ none ↦ none | some n ↦ k n ]

abbrev pub first_byte : ℕ → ℕ → ℕ
first_byte p q = p * 4 + q / 16

abbrev pub second_byte : ℕ → ℕ → ℕ
second_byte q r = q % 16 * 16 + r / 4

abbrev pub third_byte : ℕ → ℕ → ℕ
third_byte r s = r % 4 * 64 + s

abbrev pub prepend : Text → Option Text → Option Text
prepend bytes none = none
prepend bytes (some rest) = some (bytes ++ rest)

-- A group that is the last and padded, as the four characters `c₀ c₁ c₂ =`.
unfoldable pub padded : ℕ → ℕ → ℕ → Option Text
padded c₀ c₁ c₂ = with_sextet c₀ λ p. with_sextet c₁ λ q.
    if c₂ == b'='
    then some (first_byte p q ∷ [])
    else with_sextet c₂ λ r. some (first_byte p q ∷ second_byte q r ∷ [])

unfoldable pub full : ℕ → ℕ → ℕ → ℕ → Option Text
full c₀ c₁ c₂ c₃ = with_sextet c₀ λ p. with_sextet c₁ λ q.
    with_sextet c₂
      λ r. with_sextet c₃ λ s. some (first_byte p q ∷ second_byte q r ∷ third_byte r s ∷ [])

abbrev pub is_empty : Text → Bool
is_empty [] = true
is_empty (c ∷ s) = false

abbrev pub joined : Option Text → Option Text → Option Text
joined none rest = none
joined (some bytes) rest = prepend bytes rest

-- The characters with no line ends between them.
unfoldable pub decode_groups : Text → Option Text
unfolding padded full unsextet
decode_groups [] = some []
decode_groups (c₀ ∷ c₁ ∷ c₂ ∷ c₃ ∷ s) =
    let rest = decode_groups s in
    if c₃ == b'=' && is_empty s then padded c₀ c₁ c₂ else joined (full c₀ c₁ c₂ c₃) rest
decode_groups _ = none

unfoldable pub decode : Text → Option Text
unfolding drop_line_ends decode_groups
decode s = decode_groups (drop_line_ends s)

-- What a stored text stands for.
abbrev pub decoded : Option Text → Option Text
decoded none = none
decoded (some s) = decode s
