-- ===== src/Kv/Gcs/Defs.antt =====
-- pkg/kv/gcs/gcs.go, over the calls that it makes of cloud.google.com/go/storage.
use unsealer.Prelude.{ℕ, ◌++◌}
use unsealer.Text.{Text, text}
use unsealer.Effect.{
  Error, not_found_because, object_not_exist, plain, wrapped, Result, ok, err, Call, pure, wrapping,
  ◌>>=◌, ◌>>◌,
}
use unsealer.Kv.Defs.{Service, dummy_key, dummy_value}

-- The object that a reader or a writer was made for.
pub record Object : Type 0 where
  pub bucket : Text
  pub object : Text

-- `NewWriter` makes no request: the data go to `write`, and are stored when `close` succeeds. A
-- reader is a handle.
pub record GcsClient (K : Type 0) : Type 0 where
  pub write : Object → Text → Call K Unit
  pub close : Object → Call K Unit
  pub new_reader : Object → Call K ℕ
  pub read_all : ℕ → Call K Text
  pub delete : Object → Call K Unit

pub record GcsStorage (K : Type 0) : Type 0 where
  pub cl : GcsClient K
  pub bucket : Text
  pub prefix : Text

unfoldable pub object_name_with_prefix : Text → Text → Text
object_name_with_prefix prefix key = prefix ++ key

-- `New`, given the result of `storage.NewClient`.
unfoldable pub new : {K : Type 0} → Result (GcsClient K) → Text → Text → Result (GcsStorage K)
new (ok cl) bucket prefix = ok (record { cl = cl; bucket = bucket; prefix = prefix })
new (err e) bucket prefix = err (wrapped (text "error creating gcs client: ") e)

-- What `Get` makes of an error of `NewReader`: the sentinel becomes a `*kv.NotFoundError`.
abbrev pub reader_error : Text → Error → Error
reader_error n object_not_exist =
    not_found_because (text "error getting object for key '" ++ (n ++ text "': ")) object_not_exist
reader_error n e = wrapped (text "error getting object for key '" ++ (n ++ text "': ")) e

abbrev pub fail_reader : Text → Result ℕ → Result ℕ
fail_reader n (ok reader) = ok reader
fail_reader n (err e) = err (reader_error n e)

-- `Set` drops the cause of a failed `Write`.
abbrev pub fail_write : Error → Result Unit → Result Unit
fail_write message (ok done) = ok tt
fail_write message (err e) = err message

module _ {K : Type 0} (g : GcsStorage K) where
  abbrev pub at : Text → Object
  at n = record { bucket = g.bucket; object = n }

  unfoldable pub set : Text → Text → Call K Unit
  unfolding object_name_with_prefix
  set key value = do
    let n = object_name_with_prefix g.prefix key
    λ w.
        let (r, w') = g.cl.write (at n) value w in
        (
          fail_write
              (plain (
                text "error writing key '"
                ++ (n ++ (text "' to gcs bucket '" ++ (g.bucket ++ text "'")))))
              r,
          w',
        )
    g.cl.close (at n)

  unfoldable pub get : Text → Call K Text
  unfolding object_name_with_prefix
  get key = do
    let n = object_name_with_prefix g.prefix key
    reader ← λ w. let (r, w') = g.cl.new_reader (at n) w in (fail_reader n r, w')
    wrapping (text "error reading object with key '" ++ (n ++ text "': ")) (g.cl.read_all reader)

  -- The object that is deleted is named without the prefix.
  unfoldable pub check_write_access : Call K Unit
  check_write_access = do
    wrapping (text "failed to write test file: ") (set dummy_key dummy_value)
    wrapping (text "failed to get test file: ") (get dummy_key)
    wrapping (text "failed to delete test file: ") (g.cl.delete (at dummy_key))

  unfoldable pub service : Service K
  unfolding get set check_write_access
  service = record {
    set = set;
    get = get;
    check_write_access = check_write_access;
    test = λ key. pure tt;
  }
