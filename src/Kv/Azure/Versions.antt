-- ===== src/Kv/Azure/Versions.antt =====
-- pkg/kv/azure/azure_key_vault.go: the scan of `GetLatestVersionOfSecret` over the pages of the
-- versions of a secret.
use unsealer.Prelude.{Option, none, some, List, [], ◌∷◌, if◌then◌else◌}
use unsealer.Prelude.Int.{ℤ, pos, ltb_ℤ}
use unsealer.Text.{Text, text}
use unsealer.Effect.{Error, wrapped, Result, ok, err}
use unsealer.Validation.{is_blank}
use unsealer.Kv.Azure.Base.{base}

-- The service fills in the attributes of every item that it lists.
pub record SecretItem : Type 0 where
  pub id : Option Text
  pub created : ℤ

-- The pages that an iterator has left: `Next` leads to the rest, or fails.
pub data Versions : Type 0 where
  done : Versions
  page : List SecretItem → Versions → Versions
  broken : List SecretItem → Error → Versions

-- `to.String`.
abbrev pub to_string : Option Text → Text
to_string none = []
to_string (some s) = s

-- The two local variables of the scan.
pub record Latest : Type 0 where
  pub version : Text
  pub created_time : ℤ

abbrev pub no_version : Latest
no_version = record { version = []; created_time = pos 0 }

unfoldable pub latest_of : SecretItem → Latest
latest_of item = record { version = base (to_string item.id); created_time = item.created }

unfoldable pub scan_item : Latest → SecretItem → Latest
unfolding latest_of
scan_item l item =
    if is_blank l.version
    then latest_of item
    else if ltb_ℤ l.created_time item.created
    then latest_of item
    else l

unfoldable pub scan_items : Latest → List SecretItem → Latest
unfolding scan_item
scan_items l [] = l
scan_items l (item ∷ items) = scan_items (scan_item l item) items

unfoldable pub scan_pages : Latest → Versions → Result Latest
unfolding scan_items
scan_pages l done = ok l
scan_pages l (page items rest) = scan_pages (scan_items l items) rest
scan_pages l (broken items e) = err (wrapped (text "unable to get next pages of version") e)
