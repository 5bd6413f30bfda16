-- ===== src/Text.antt =====
-- Go's strings and byte slices: both are sequences of bytes, so `[]byte(s)` and `string(b)` are the
-- identity. `text` writes a literal, and `decimal` is the verb `%d` at a number that is not negative.
mod Defs
pub mod Decimal
pub use Defs.{Text, IsBytes, codes, text_eq_iff, text_eq_refl, text_eq-append, text_ne}
unfoldable pub use Defs.{text, text_eq}
