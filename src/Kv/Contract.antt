-- ===== src/Kv/Contract.antt =====
-- What a client of a key store relies on, over a view `holds` of the values that its state stores.
-- Any call may fail; what it then leaves is bounded.
use unsealer.Prelude.{◌≡◌, true, false, Option, none, some, if◌then◌else◌}
use unsealer.Text.{Text, IsBytes, text_eq}
use unsealer.Effect.{Error, ok, err}
use unsealer.Kv.Defs.{Service, is_not_found, dummy_key}

pub record KvContract {K : Type 0} (s : Service K) (holds : K → Text → Option Text) : Type 0 where
  -- A value that is read is the stored one, and a key that is reported missing is missing.
  pub get_ok : (k : Text) (w : K) {v : Text} → (s.get k w).0 ≡ ok v → holds w k ≡ some v
  pub get_bytes : (k : Text) (w : K) {v : Text} → (s.get k w).0 ≡ ok v → IsBytes v
  pub get_missing :
      (k : Text) (w : K) {e : Error}
      → (s.get k w).0 ≡ err e
      → is_not_found e ≡ true
      → holds w k ≡ none
  -- Reads and tests change nothing.
  pub get_keeps : (k : Text) (w : K) (j : Text) → holds (s.get k w).1 j ≡ holds w j
  pub test_keeps : (k : Text) (w : K) (j : Text) → holds (s.test k w).1 j ≡ holds w j
  -- A write that succeeds stores its value and nothing else; one that fails leaves other keys.
  pub set_ok :
      (k v : Text) (w : K) (j : Text)
      → IsBytes v
      → (s.set k v w).0 ≡ ok tt
      → holds (s.set k v w).1 j ≡ (if text_eq k j then some v else holds w j)
  pub set_frame :
      (k v : Text) (w : K) (j : Text) → text_eq k j ≡ false → holds (s.set k v w).1 j ≡ holds w j

-- The contract without what a reported missing key says, for a key store that also reports as missing
-- what it cannot read.
pub record KvValues {K : Type 0} (s : Service K) (holds : K → Text → Option Text) : Type 0 where
  pub get_ok : (k : Text) (w : K) {v : Text} → (s.get k w).0 ≡ ok v → holds w k ≡ some v
  pub get_bytes : (k : Text) (w : K) {v : Text} → (s.get k w).0 ≡ ok v → IsBytes v
  pub get_keeps : (k : Text) (w : K) (j : Text) → holds (s.get k w).1 j ≡ holds w j
  pub test_keeps : (k : Text) (w : K) (j : Text) → holds (s.test k w).1 j ≡ holds w j
  pub set_ok :
      (k v : Text) (w : K) (j : Text)
      → IsBytes v
      → (s.set k v w).0 ≡ ok tt
      → holds (s.set k v w).1 j ≡ (if text_eq k j then some v else holds w j)
  pub set_frame :
      (k v : Text) (w : K) (j : Text) → text_eq k j ≡ false → holds (s.set k v w).1 j ≡ holds w j

pub KvContract-KvValues :
    {K : Type 0} {s : Service K} {holds : K → Text → Option Text}
    → KvContract s holds
    → KvValues s holds
KvContract-KvValues c = record {
  get_ok = λ k w {v} h. c.get_ok k w h;
  get_bytes = λ k w {v} h. c.get_bytes k w h;
  get_keeps = c.get_keeps;
  test_keeps = c.test_keeps;
  set_ok = c.set_ok;
  set_frame = c.set_frame;
}

-- The access check leaves every key but its own as it was.
pub record CheckContract {K : Type 0} (s : Service K) (holds : K → Text → Option Text)
    : Type 0 where
  pub check_frame :
      (w : K) (j : Text)
      → text_eq dummy_key j ≡ false
      → holds (s.check_write_access w).1 j ≡ holds w j

-- A key store none of whose calls fails for a reason of its own, such as a network error; it takes
-- any value that is bytes.
pub record KvAvailable {K : Type 0} (s : Service K) (holds : K → Text → Option Text) : Type 0 where
  pub get_found : (k : Text) (w : K) (v : Text) → holds w k ≡ some v → (s.get k w).0 ≡ ok v
  pub get_absent :
      (k : Text) (w : K)
      → holds w k ≡ none
      → (e : Error) × ((s.get k w).0 ≡ err e) × (is_not_found e ≡ true)
  pub set_succeeds : (k v : Text) (w : K) → IsBytes v → (s.set k v w).0 ≡ ok tt
  pub test_succeeds : (k : Text) (w : K) → (s.test k w).0 ≡ ok tt
  pub check_succeeds : (w : K) → (s.check_write_access w).0 ≡ ok tt
