-- ===== src/Base64/Calls.antt =====
-- `DecodeString` as a call that returns an error.
use unsealer.Prelude.{none, some}
use unsealer.Text.{Text, text}
use unsealer.Effect.{plain, Call, pure, raise}
use unsealer.Base64.Defs.{decode}

-- `base64.StdEncoding.DecodeString` with its error.
abbrev pub decode_string : {S : Type 0} → Text → Call S Text
decode_string value = elim (decode value) [
  | none ↦ raise (plain (text "illegal base64 data"))
  | some bytes ↦ pure bytes
]
