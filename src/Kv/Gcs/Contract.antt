-- ===== src/Kv/Gcs/Contract.antt =====
-- The documented behaviour of Google Cloud Storage, and `gcsStorage` of pkg/kv/gcs as a key store
-- over it.
use unsealer.Prelude.{
  ◌≡◌, ◌∙◌, refl, Bool, true, false, ◌&&◌, Option, none, some, ℕ, arith, inl, inr, if◌then◌else◌,
}
use unsealer.Text.{Text, IsBytes, text_eq, text_eq-append, text_eq_refl}
use unsealer.Effect.{Error, object_not_exist, ok, err, Result-cases}
use unsealer.Kv.Defs.{is_not_found}
use unsealer.Kv.Contract.{KvContract}
use unsealer.Kv.Gcs.Defs.{
  Object, GcsClient, GcsStorage, object_name_with_prefix, at, set, get, service,
}

abbrev pub is_sentinel : Error → Bool
is_sentinel object_not_exist = true
is_sentinel e = false

abbrev pub object_eq : Object → Object → Bool
object_eq a b = text_eq a.bucket b.bucket && text_eq a.object b.object

-- The documented behaviour of the calls, over a view of the stored objects.
pub record GcsContract {K : Type 0} (c : GcsClient K) (objects : K → Object → Option Text)
    : Type 0 where
  pub read_ok :
      (o : Object) (w : K) {r : ℕ} {v : Text}
      → (c.new_reader o w).0 ≡ ok r
      → (c.read_all r (c.new_reader o w).1).0 ≡ ok v
      → (objects w o ≡ some v) × IsBytes v
  pub reader_missing :
      (o : Object) (w : K) {e : Error}
      → (c.new_reader o w).0 ≡ err e
      → is_sentinel e ≡ true
      → objects w o ≡ none
  pub reader_foreign :
      (o : Object) (w : K) {e : Error} → (c.new_reader o w).0 ≡ err e → is_not_found e ≡ false
  pub reader_keeps :
      (o : Object) (w : K) (p : Object) → objects (c.new_reader o w).1 p ≡ objects w p
  pub read_all_keeps : (r : ℕ) (w : K) (p : Object) → objects (c.read_all r w).1 p ≡ objects w p
  -- Nothing is stored before the writer is closed.
  pub write_keeps :
      (o : Object) (v : Text) (w : K) (p : Object) → objects (c.write o v w).1 p ≡ objects w p
  pub close_ok :
      (o : Object) (v : Text) (w : K) (p : Object)
      → (c.write o v w).0 ≡ ok tt
      → (c.close o (c.write o v w).1).0 ≡ ok tt
      → objects (c.close o (c.write o v w).1).1 p ≡ (if object_eq o p then some v else objects w p)
  pub close_frame :
      (o : Object) (w : K) (p : Object)
      → object_eq o p ≡ false
      → objects (c.close o w).1 p ≡ objects w p
  -- A deleted object must exist.
  pub delete_missing :
      (o : Object) (w : K) → objects w o ≡ none → (e : Error) × ((c.delete o w).0 ≡ err e)
  pub delete_frame :
      (o : Object) (w : K) (p : Object)
      → object_eq o p ≡ false
      → objects (c.delete o w).1 p ≡ objects w p

module _ {K : Type 0} (g : GcsStorage K) (objects : K → Object → Option Text)
    (gcs : GcsContract g.cl objects) where
  abbrev pub of_key : Text → Object
  of_key key = at g (object_name_with_prefix g.prefix key)

  abbrev pub stored : K → Text → Option Text
  stored w key = objects w (of_key key)

  pub object_eq-of_key : (k j : Text) → object_eq (of_key k) (of_key j) ≡ text_eq k j
  unfolding object_name_with_prefix
  object_eq-of_key k j = rw (text_eq_refl g.bucket, text_eq-append g.prefix k j)

  get_ok : (k : Text) (w : K) {v : Text} → (get g k w).0 ≡ ok v → (stored w k ≡ some v) × IsBytes v
  unfolding get
  get_ok k w {v} h = elim (Result-cases (g.cl.new_reader (of_key k) w).0) [
    | inl (r, p) ↦ ground (arith, gcs.read_ok (of_key k) w {v = v} p)
    | inr (e, p) ↦ absurd (ground arith)
  ]

  get_missing :
      (k : Text) (w : K) {e : Error}
      → (get g k w).0 ≡ err e
      → is_not_found e ≡ true
      → stored w k ≡ none
  unfolding get
  get_missing k w {e} h missing = elim (Result-cases (g.cl.new_reader (of_key k) w).0) [
    | inl (r, p) ↦ absurd (ground arith)
    | inr (f, p) ↦ ground (arith, gcs.reader_missing (of_key k) w p)
  ]

  pub get_keeps : (k : Text) (w : K) (p : Object) → objects (get g k w).1 p ≡ objects w p
  unfolding get
  get_keeps k w p = elim (Result-cases (g.cl.new_reader (of_key k) w).0) [
    | inl (r, q) ↦ ground (
      arith,
      gcs.reader_keeps (of_key k) w p,
      gcs.read_all_keeps r (g.cl.new_reader (of_key k) w).1 p,
    )
    | inr (e, q) ↦ ground (arith, gcs.reader_keeps (of_key k) w p)
  ]

  pub set_objects :
      (k v : Text) (w : K) (p : Object)
      → (set g k v w).0 ≡ ok tt
      → objects (set g k v w).1 p ≡ (if object_eq (of_key k) p then some v else objects w p)
  unfolding set
  set_objects k v w p h = ground (arith, gcs.close_ok (of_key k) v w p)

  pub set_frame :
      (k v : Text) (w : K) (p : Object)
      → object_eq (of_key k) p ≡ false
      → objects (set g k v w).1 p ≡ objects w p
  unfolding set
  set_frame k v w p other = ground (
    arith,
    gcs.write_keeps (of_key k) v w p,
    gcs.close_frame (of_key k) (g.cl.write (of_key k) v w).1 p other,
  )

  -- Over an object store that behaves as documented, `gcsStorage` keeps the contract of a key store,
  -- with any prefix.
  pub gcs-KvContract : KvContract (service g) stored
  unfolding service
  gcs-KvContract = record {
    get_ok = λ k w {v} h. (get_ok k w h).0;
    get_bytes = λ k w {v} h. (get_ok k w h).1;
    get_missing = λ k w {e} h. get_missing k w h;
    get_keeps = λ k w j. get_keeps k w (of_key j);
    test_keeps = λ k w j. refl;
    set_ok = λ k v w j bytes h. rw (← object_eq-of_key k j) (set_objects k v w (of_key j) h);
    set_frame = λ k v w j other. set_frame k v w (of_key j) (object_eq-of_key k j ∙ other);
  }
