-- ===== src/Base64/RoundTrip.antt =====
-- The decoder of base64 after the encoder.
use unsealer.Prelude.{
  ◌++◌, ◌&&◌, ℕ, ◌+◌, ◌*◌, ◌/◌, ◌%◌, ◌<◌, ◌≡◌, refl, Bool, true, false, ◌||◌, Option, none, some,
  [], ◌∷◌, ◌==◌, if◌then◌else◌, arith,
}
use mathlib.Core.Path.{subst}
use unsealer.Text.{Text, IsBytes}
use unsealer.Base64.Defs.{
  first_byte, is_empty, joined, sextet, unsextet, encode, drop_line_ends, decode_groups, decode,
  full, padded, with_sextet,
}

unsextet-sextet : (n : ℕ) → n < 64 → unsextet (sextet n) ≡ some n
unfolding sextet unsextet
unsextet-sextet n h = ground arith

-- Six bits are never written as a line end or as padding.
sextet_plain :
    (n : ℕ) → ((sextet n == b'\n') || (sextet n == b'\r') ≡ false) × ((sextet n == b'=') ≡ false)
unfolding sextet
sextet_plain n = ground arith

first_byte_lem : (a b : ℕ) → b < 256 → a / 4 * 4 + (a % 4 * 16 + b / 16) / 16 ≡ a
first_byte_lem a b hb = omega arith

second_byte_lem :
    (a b c : ℕ)
    → c < 256
    → (a % 4 * 16 + b / 16) % 16 * 16 + (b % 16 * 4 + c / 64) / 4 ≡ b / 16 % 16 * 16 + b % 16
second_byte_lem a b c hc = omega arith

third_byte_lem : (b c : ℕ) → (b % 16 * 4 + c / 64) % 4 * 64 + c % 64 ≡ c / 64 % 4 * 64 + c % 64
third_byte_lem b c = omega arith

full_lem :
    (a b c : ℕ)
    → a < 256
    → b < 256
    → c < 256
    → full
        (sextet (a / 4))
        (sextet (a % 4 * 16 + b / 16))
        (sextet (b % 16 * 4 + c / 64))
        (sextet (c % 64))
      ≡ some (a ∷ b ∷ c ∷ [])
unfolding full
full_lem a b c ha hb hc = ground (
  arith,
  unsextet-sextet (a / 4) (omega arith),
  unsextet-sextet (a % 4 * 16 + b / 16) (omega arith),
  unsextet-sextet (b % 16 * 4 + c / 64) (omega arith),
  unsextet-sextet (c % 64) (omega arith),
  first_byte_lem a b hb,
  second_byte_lem a b c hc,
  third_byte_lem b c,
)

padded_two :
    (a b : ℕ)
    → a < 256
    → b < 256
    → padded (sextet (a / 4)) (sextet (a % 4 * 16 + b / 16)) (sextet (b % 16 * 4))
      ≡ some (a ∷ b ∷ [])
unfolding padded
padded_two a b ha hb = ground (
  arith,
  unsextet-sextet (a / 4) (omega arith),
  unsextet-sextet (a % 4 * 16 + b / 16) (omega arith),
  unsextet-sextet (b % 16 * 4) (omega arith),
  (sextet_plain (b % 16 * 4)).1,
)

padded_one : (a : ℕ) → a < 256 → padded (sextet (a / 4)) (sextet (a % 4 * 16)) b'=' ≡ some (a ∷ [])
unfolding padded
padded_one a ha =
    ground
      (arith, unsextet-sextet (a / 4) (omega arith), unsextet-sextet (a % 4 * 16) (omega arith))

drop-sextet : (n : ℕ) (s : Text) → drop_line_ends (sextet n ∷ s) ≡ sextet n ∷ drop_line_ends s
unfolding drop_line_ends
drop-sextet n s = rw (sextet_plain n).0

drop_line_ends-encode : (v : Text) → drop_line_ends (encode v) ≡ encode v
unfolding encode drop_line_ends
drop_line_ends-encode [] = refl
drop_line_ends-encode (a ∷ []) = rw (drop-sextet, drop-sextet)
drop_line_ends-encode (a ∷ b ∷ []) = rw (drop-sextet, drop-sextet, drop-sextet)
drop_line_ends-encode (a ∷ b ∷ c ∷ v) =
    rw (drop-sextet, drop-sextet, drop-sextet, drop-sextet, drop_line_ends-encode v)

decode_groups-encode : (v : Text) → IsBytes v → decode_groups (encode v) ≡ some v
unfolding encode decode_groups
decode_groups-encode [] h = refl
decode_groups-encode (a ∷ []) h = padded_one a h.0
decode_groups-encode (a ∷ b ∷ []) h = padded_two a b h.0 h.1.0
decode_groups-encode (a ∷ b ∷ c ∷ v) h = ground (
  arith,
  (sextet_plain (c % 64)).1,
  full_lem a b c h.0 h.1.0 h.1.1.0,
  decode_groups-encode v h.1.1.1,
)

-- Bytes that `EncodeToString` writes are what `DecodeString` reads.
pub decode-encode : (v : Text) → IsBytes v → decode (encode v) ≡ some v
unfolding decode
decode-encode v h = rw (drop_line_ends-encode v) (decode_groups-encode v h)

unsextet-lt : (c n : ℕ) → unsextet c ≡ some n → n < 64
unfolding unsextet
unsextet-lt c n h = ground arith

-- Every text that is decoded consists of bytes.
abbrev pub BytesOf : Option Text → Type 0
BytesOf none = Unit
BytesOf (some v) = IsBytes v

after_sextet :
    (o : Option ℕ) (k : ℕ → Option Text)
    → ((n : ℕ) → o ≡ some n → BytesOf (k n))
    → BytesOf (elim o [ none ↦ none | some n ↦ k n ])
after_sextet none k h = tt
after_sextet (some n) k h = h n refl

with_sextet-BytesOf :
    (c : ℕ) (k : ℕ → Option Text) → ((n : ℕ) → n < 64 → BytesOf (k n)) → BytesOf (with_sextet c k)
with_sextet-BytesOf c k h = after_sextet (unsextet c) k (λ n e. h n (unsextet-lt c n e))

if-BytesOf : (b : Bool) (x y : Option Text) → BytesOf x → BytesOf y → BytesOf (if b then x else y)
if-BytesOf true x y hx hy = hx
if-BytesOf false x y hx hy = hy

padded-BytesOf : (c₀ c₁ c₂ : ℕ) → BytesOf (padded c₀ c₁ c₂)
unfolding padded
padded-BytesOf c₀ c₁ c₂ = with_sextet-BytesOf c₀ _ λ p hp. with_sextet-BytesOf c₁ _ λ q hq.
    if-BytesOf (c₂ == b'=') (some (first_byte p q ∷ [])) _ (omega arith)
      (with_sextet-BytesOf c₂ _ λ r hr. omega arith)

full-BytesOf : (c₀ c₁ c₂ c₃ : ℕ) → BytesOf (full c₀ c₁ c₂ c₃)
unfolding full
full-BytesOf c₀ c₁ c₂ c₃ = with_sextet-BytesOf c₀ _ λ p hp.
    with_sextet-BytesOf c₁ _
      λ q hq. with_sextet-BytesOf c₂ _ λ r hr. with_sextet-BytesOf c₃ _ λ s hs. omega arith

All-append : (s t : Text) → IsBytes s → IsBytes t → IsBytes (s ++ t)
All-append [] t hs ht = ht
All-append (c ∷ s) t hs ht = (hs.0, All-append s t hs.1 ht)

joined-BytesOf : (o rest : Option Text) → BytesOf o → BytesOf rest → BytesOf (joined o rest)
joined-BytesOf none rest ho hr = tt
joined-BytesOf (some v) none ho hr = tt
joined-BytesOf (some v) (some t) ho hr = All-append v t ho hr

decode_groups-BytesOf : (s : Text) → BytesOf (decode_groups s)
unfolding decode_groups
decode_groups-BytesOf [] = tt
decode_groups-BytesOf (c₀ ∷ []) = tt
decode_groups-BytesOf (c₀ ∷ c₁ ∷ []) = tt
decode_groups-BytesOf (c₀ ∷ c₁ ∷ c₂ ∷ []) = tt
decode_groups-BytesOf (c₀ ∷ c₁ ∷ c₂ ∷ c₃ ∷ s) =
    if-BytesOf (c₃ == b'=' && is_empty s) (padded c₀ c₁ c₂) _ (padded-BytesOf c₀ c₁ c₂) (
      joined-BytesOf (full c₀ c₁ c₂ c₃) (decode_groups s) (full-BytesOf c₀ c₁ c₂ c₃)
        (decode_groups-BytesOf s))

pub decode-IsBytes : (s v : Text) → decode s ≡ some v → IsBytes v
unfolding decode
decode-IsBytes s v h = subst BytesOf h (decode_groups-BytesOf (drop_line_ends s))
