-- ===== src/Kv/Encrypted.antt =====
-- A key store that encrypts what it hands on to another one, as pkg/kv/aws_kms and pkg/kv/cloudkms
-- do: `get` decrypts after the read, `set` encrypts before the write.
use unsealer.Prelude.{◌≡◌, true, false, Option, none, some, arith, inl, inr, if◌then◌else◌}
use unsealer.Text.{Text, IsBytes, text_eq}
use unsealer.Effect.{Error, ok, err, Call, ◌>>=◌, Result-cases}
use unsealer.Kv.Defs.{Service, is_not_found}
use unsealer.Kv.Contract.{KvContract}

-- Encryption under one key: `plain` is what a cipher text stands for, whenever it is decrypted.
pub record CipherContract {K : Type 0} (encrypt decrypt : Text → Call K Text)
    (plain : Text → Option Text) (holds : K → Text → Option Text) : Type 0 where
  pub encrypt_ok :
      (p : Text) (w : K) {c : Text}
      → IsBytes p
      → (encrypt p w).0 ≡ ok c
      → (plain c ≡ some p) × IsBytes c
  pub decrypt_ok :
      (c : Text) (w : K) {p : Text}
      → IsBytes c
      → (decrypt c w).0 ≡ ok p
      → (plain c ≡ some p) × IsBytes p
  pub decrypt_foreign :
      (c : Text) (w : K) {e : Error} → (decrypt c w).0 ≡ err e → is_not_found e ≡ false
  pub encrypt_keeps : (p : Text) (w : K) (j : Text) → holds (encrypt p w).1 j ≡ holds w j
  pub decrypt_keeps : (c : Text) (w : K) (j : Text) → holds (decrypt c w).1 j ≡ holds w j

abbrev pub decrypted : (Text → Option Text) → Option Text → Option Text
decrypted plain none = none
decrypted plain (some c) = plain c

module _ {K : Type 0} (s : Service K) (encrypt decrypt : Text → Call K Text)
    (plain : Text → Option Text) (holds : K → Text → Option Text) (store : KvContract s holds)
    (cipher : CipherContract encrypt decrypt plain holds) where
  abbrev encrypted_get : Text → Call K Text
  encrypted_get key = do cipher_text ← s.get key; decrypt cipher_text

  abbrev encrypted_set : Text → Text → Call K Unit
  encrypted_set key value = do cipher_text ← encrypt value; s.set key cipher_text

  abbrev stored : K → Text → Option Text
  stored w j = decrypted plain (holds w j)

  pub encrypted_get_ok :
      (k : Text) (w : K) {v : Text}
      → (encrypted_get k w).0 ≡ ok v
      → (stored w k ≡ some v) × IsBytes v
  encrypted_get_ok k w {v} h = elim (Result-cases (s.get k w).0) [
    | inl (c, p) ↦ ground (
      arith,
      store.get_ok k w p,
      cipher.decrypt_ok c (s.get k w).1 {p = v} (store.get_bytes k w p),
    )
    | inr (f, p) ↦ absurd (ground arith)
  ]

  pub encrypted_get_missing :
      (k : Text) (w : K) {e : Error}
      → (encrypted_get k w).0 ≡ err e
      → is_not_found e ≡ true
      → stored w k ≡ none
  encrypted_get_missing k w {e} h missing = elim (Result-cases (s.get k w).0) [
    | inl (c, p) ↦ absurd (ground (arith, cipher.decrypt_foreign c (s.get k w).1 {e = e}))
    | inr (f, p) ↦ ground (arith, store.get_missing k w p)
  ]

  pub encrypted_get_keeps :
      (k : Text) (w : K) (j : Text) → stored (encrypted_get k w).1 j ≡ stored w j
  encrypted_get_keeps k w j = elim (Result-cases (s.get k w).0) [
    | inl (c, p) ↦ ground (arith, store.get_keeps k w j, cipher.decrypt_keeps c (s.get k w).1 j)
    | inr (f, p) ↦ ground (arith, store.get_keeps k w j)
  ]

  pub encrypted_set_ok :
      (k v : Text) (w : K) (j : Text)
      → IsBytes v
      → (encrypted_set k v w).0 ≡ ok tt
      → stored (encrypted_set k v w).1 j ≡ (if text_eq k j then some v else stored w j)
  encrypted_set_ok k v w j bytes h = elim (Result-cases (encrypt v w).0) [
    | inl (c, p) ↦
        let (stands, cipher_bytes) = cipher.encrypt_ok v w bytes p in
        ground (arith, store.set_ok k c (encrypt v w).1 j cipher_bytes, cipher.encrypt_keeps v w j)
    | inr (e, p) ↦ absurd (ground arith)
  ]

  pub encrypted_set_frame :
      (k v : Text) (w : K) (j : Text)
      → text_eq k j ≡ false
      → stored (encrypted_set k v w).1 j ≡ stored w j
  encrypted_set_frame k v w j other = elim (Result-cases (encrypt v w).0) [
    | inl (c, p) ↦
        ground (arith, store.set_frame k c (encrypt v w).1 j other, cipher.encrypt_keeps v w j)
    | inr (e, p) ↦ ground (arith, cipher.encrypt_keeps v w j)
  ]
