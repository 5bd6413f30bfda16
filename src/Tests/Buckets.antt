-- ===== src/Tests/Buckets.antt =====
-- An object store in memory, and the key store of pkg/kv/gcs over it.
use unsealer.Prelude.{
  ℕ, ◌≡◌, ◌≢◌, refl, ap, true, false, Option, none, some, [], arith, if◌then◌else◌,
}
use unsealer.Text.{Text, IsBytes, text, text_eq_refl}
use unsealer.Effect.{Error, plain, object_not_exist, ok, err, Call}
use unsealer.Kv.{is_not_found}
use unsealer.Kv.Contract.{KvContract, CheckContract}
use unsealer.Kv.Gcs.Defs.{Object, GcsStorage, check_write_access, service}
use unsealer.Kv.Gcs.Contract.{GcsContract, object_eq, gcs-KvContract, stored}
use unsealer.Kv.Gcs.Access.{check_fails, check-CheckContract}
use unsealer.Tests.Store.{all_bytes, all_bytes-IsBytes, in_bytes}

-- What is stored, what was handed to the writer, and what the open reader reads.
record Bucket : Type 0 where
  objects : Object → Option Text
  written : Text
  reading : Text

abbrev shown : Bucket → Object → Option Text
shown w o = in_bytes (w.objects o)

abbrev put : Object → Text → Bucket → Object → Option Text
put o v w p = if object_eq o p then some v else w.objects p

abbrev remove : Object → Bucket → Object → Option Text
remove o w p = if object_eq o p then none else w.objects p

abbrev open_reader : Option Text → Call Bucket ℕ
open_reader none w = (err object_not_exist, w)
open_reader (some v) w = (ok 0, record w { reading = v })

abbrev delete_shown : Object → Option Text → Call Bucket Unit
delete_shown o none w = (err object_not_exist, w)
delete_shown o (some v) w = (ok tt, record w { objects = remove o w })

abbrev toy_gcs : Text → GcsStorage Bucket
toy_gcs prefix = record {
  cl = record {
    write = λ o v w.
        if all_bytes v then (ok tt, record w { written = v }) else (err (plain (text "write")), w);
    close = λ o w. (ok tt, record w { objects = put o w.written w });
    new_reader = λ o w. open_reader (shown w o) w;
    read_all = λ r w. (ok w.reading, w);
    delete = λ o w. delete_shown o (shown w o) w;
  };
  bucket = text "vault-keys";
  prefix = prefix;
}

object_eq_refl : (o : Object) → object_eq o o ≡ true
object_eq_refl o = rw (text_eq_refl o.bucket, text_eq_refl o.object) refl

in_bytes-some : (o : Option Text) (v : Text) → in_bytes o ≡ some v → IsBytes v
in_bytes-some none v h = absurd (cc h)
in_bytes-some (some s) v h = all_bytes-IsBytes v (ground arith)

open_reads :
    (o : Option Text) (w : Bucket) (r : ℕ) (v : Text)
    → (open_reader o w).0 ≡ ok r
    → (open_reader o w).1.reading ≡ v
    → o ≡ some v
open_reads none w r v h k = absurd (cc h)
open_reads (some s) w r v h k = ap some k

toy-GcsContract : (prefix : Text) → GcsContract (toy_gcs prefix).cl shown
toy-GcsContract prefix = record {
  read_ok = λ o w {r} {v} h k.
      let is : shown w o ≡ some v = open_reads (shown w o) w r v h (cc k) in
      (is, in_bytes-some (w.objects o) v is);
  reader_missing = λ o w {e} h s. missing (shown w o) w e h;
  reader_foreign = λ o w {e} h. foreign (shown w o) w e h;
  reader_keeps = λ o w p. ground arith;
  read_all_keeps = λ r w p. refl;
  write_keeps = λ o v w p. ground arith;
  close_ok = λ o v w p h k. ground arith;
  close_frame = λ o w p other. ground arith;
  delete_missing = λ o w absent. (object_not_exist, rw absent refl);
  delete_frame = λ o w p other. ground arith;
}
  where
    missing : (o : Option Text) (w : Bucket) (e : Error) → (open_reader o w).0 ≡ err e → o ≡ none
    missing none w e h = refl
    missing (some v) w e h = absurd (cc h)

    foreign :
        (o : Option Text) (w : Bucket) (e : Error)
        → (open_reader o w).0 ≡ err e
        → is_not_found e ≡ false
    foreign none w e h = ground arith
    foreign (some v) w e h = absurd (cc h)

abbrev prefix : Text
prefix = text "demo/"

abbrev no_objects : Bucket
no_objects = record { objects = λ o. none; written = []; reading = [] }

gcs-KvContract_example :
    KvContract (service (toy_gcs prefix)) (stored (toy_gcs prefix) shown (toy-GcsContract prefix))
gcs-KvContract_example = gcs-KvContract (toy_gcs prefix) shown (toy-GcsContract prefix)

some_prefix : prefix ≢ []
unfolding text
some_prefix h = cc h

check_fails_example : (e : Error) × ((check_write_access (toy_gcs prefix) no_objects).0 ≡ err e)
check_fails_example =
    check_fails (toy_gcs prefix) shown (toy-GcsContract prefix) no_objects some_prefix refl

check-CheckContract_example :
    CheckContract (service (toy_gcs [])) (stored (toy_gcs []) shown (toy-GcsContract []))
check-CheckContract_example = check-CheckContract (toy_gcs []) shown (toy-GcsContract []) refl
