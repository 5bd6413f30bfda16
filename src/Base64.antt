-- ===== src/Base64.antt =====
-- Go's base64.StdEncoding: `EncodeToString` and `DecodeString`.
mod Defs
pub mod RoundTrip
pub mod Calls
unfoldable pub use Defs.{encode, decode, sextet, unsextet}
pub use Defs.{decoded}
