-- ===== src/Kv/Defs.antt =====
-- pkg/kv/storage.go: the interface `kv.Service` over the state `K` of what holds the values.
use unsealer.Prelude.{Bool, true, false}
use unsealer.Text.{Text, text}
use unsealer.Effect.{Error, not_found_error, not_found_because, Call}

-- `err.(*kv.NotFoundError)`
abbrev pub is_not_found : Error → Bool
is_not_found (not_found_error message) = true
is_not_found (not_found_because message cause) = true
is_not_found _ = false

pub record Service (K : Type 0) : Type 0 where
  pub set : Text → Text → Call K Unit
  pub get : Text → Call K Text
  pub check_write_access : Call K Unit
  pub test : Text → Call K Unit

-- The key and the value that every implementation of `CheckWriteAccess` writes.
abbrev pub dummy_key : Text
dummy_key = text "vault-unsealer-dummy-file"

abbrev pub dummy_value : Text
dummy_value = text "read write access check"
