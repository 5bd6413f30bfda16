-- ===== src/Kv/CloudKms/Contract.antt =====
-- The documented behaviour of Cloud KMS, and `googleKms` of pkg/kv/cloudkms as a key store over it
-- and another key store.
use unsealer.Prelude.{◌≡◌, refl, false, Option, some, arith, inl, inr, Option-cases}
use unsealer.Text.{Text, IsBytes}
use unsealer.Effect.{Error, ok, err, Result-cases}
use unsealer.Base64.{encode, decode}
use unsealer.Base64.RoundTrip.{decode-encode, decode-IsBytes}
use unsealer.Kv.Defs.{is_not_found}
use unsealer.Kv.Contract.{KvContract}
use unsealer.Kv.Encrypted.{
  CipherContract, decrypted, encrypted_get_ok, encrypted_get_missing, encrypted_get_keeps,
  encrypted_set_ok, encrypted_set_frame,
}
use unsealer.Kv.CloudKms.Defs.{CloudKmsClient, GoogleKms, encrypt, decrypt, service}

-- The documented behaviour of the service under one key. `plain` is what a cipher text stands for.
pub record CloudKmsContract {K : Type 0} (c : CloudKmsClient K) (path : Text)
    (plain : Text → Option Text) (holds : K → Text → Option Text) : Type 0 where
  pub encrypt_ok :
      (p : Text) (w : K) {sent answer : Text}
      → decode sent ≡ some p
      → (c.encrypt path sent w).0 ≡ ok answer
      → (cipher : Text) × (decode answer ≡ some cipher) × (plain cipher ≡ some p)
  pub decrypt_ok :
      (cipher : Text) (w : K) {sent answer : Text}
      → decode sent ≡ some cipher
      → (c.decrypt path sent w).0 ≡ ok answer
      → (p : Text) × (decode answer ≡ some p) × (plain cipher ≡ some p)
  pub encrypt_keeps : (s : Text) (w : K) (j : Text) → holds (c.encrypt path s w).1 j ≡ holds w j
  pub decrypt_keeps : (s : Text) (w : K) (j : Text) → holds (c.decrypt path s w).1 j ≡ holds w j

module _ {K : Type 0} (g : GoogleKms K) (plain : Text → Option Text)
    (holds : K → Text → Option Text) (kms : CloudKmsContract g.svc g.key_path plain holds) where
  encrypt_ok :
      (p : Text) (w : K) {c : Text}
      → IsBytes p
      → (encrypt g p w).0 ≡ ok c
      → (plain c ≡ some p) × IsBytes c
  unfolding encrypt
  encrypt_ok p w {c} bytes h = elim (Result-cases (g.svc.encrypt g.key_path (encode p) w).0) [
    | inl (answer, q) ↦
        let (cipher, decodes, stands) =
          kms.encrypt_ok p w {sent = encode p} (decode-encode p bytes) q in
        let same : cipher ≡ c = ground arith in
        (ground arith, decode-IsBytes answer c (ground arith))
    | inr (e, q) ↦ absurd (ground arith)
  ]

  decrypt_ok :
      (c : Text) (w : K) {p : Text}
      → IsBytes c
      → (decrypt g c w).0 ≡ ok p
      → (plain c ≡ some p) × IsBytes p
  unfolding decrypt
  decrypt_ok c w {p} bytes h = elim (Result-cases (g.svc.decrypt g.key_path (encode c) w).0) [
    | inl (answer, q) ↦
        let (r, decodes, stands) = kms.decrypt_ok c w {sent = encode c} (decode-encode c bytes) q in
        let same : r ≡ p = ground arith in (ground arith, decode-IsBytes answer p (ground arith))
    | inr (e, q) ↦ absurd (ground arith)
  ]

  decrypt_foreign :
      (c : Text) (w : K) {e : Error} → (decrypt g c w).0 ≡ err e → is_not_found e ≡ false
  unfolding decrypt
  decrypt_foreign c w {e} h = elim (Result-cases (g.svc.decrypt g.key_path (encode c) w).0) [
    | inl (answer, q) ↦ elim (Option-cases (decode answer)) [
      | inl bad ↦ ground arith
      | inr (v, good) ↦ absurd (ground arith)
    ]
    | inr (f, q) ↦ ground arith
  ]

  encrypt_keeps : (p : Text) (w : K) (j : Text) → holds (encrypt g p w).1 j ≡ holds w j
  unfolding encrypt
  encrypt_keeps p w j = ground (arith, kms.encrypt_keeps (encode p) w j)

  decrypt_keeps : (c : Text) (w : K) (j : Text) → holds (decrypt g c w).1 j ≡ holds w j
  unfolding decrypt
  decrypt_keeps c w j = ground (arith, kms.decrypt_keeps (encode c) w j)

  google-CipherContract : CipherContract (encrypt g) (decrypt g) plain holds
  google-CipherContract = record {
    encrypt_ok = λ p w {c} bytes h. encrypt_ok p w bytes h;
    decrypt_ok = λ c w {p} bytes h. decrypt_ok c w bytes h;
    decrypt_foreign = λ c w {e} h. decrypt_foreign c w h;
    encrypt_keeps = encrypt_keeps;
    decrypt_keeps = decrypt_keeps;
  }

  module _ (store : KvContract g.store holds) where
    abbrev stored : K → Text → Option Text
    stored w j = decrypted plain (holds w j)

    -- If the store below keeps its contract and the service decrypts what it has encrypted, then
    -- `googleKms` keeps the contract of a key store for the decrypted values.
    pub google-KvContract : KvContract (service g) stored
    unfolding service
    google-KvContract =
        let cipher = google-CipherContract in
        record {
          get_ok = λ k w {v} h.
              (encrypted_get_ok g.store (encrypt g) (decrypt g) plain holds store cipher k w h).0;
          get_bytes = λ k w {v} h.
              (encrypted_get_ok g.store (encrypt g) (decrypt g) plain holds store cipher k w h).1;
          get_missing = λ k w {e} h.
              encrypted_get_missing g.store (encrypt g) (decrypt g) plain holds store cipher k w h;
          get_keeps = encrypted_get_keeps g.store (encrypt g) (decrypt g) plain holds store cipher;
          test_keeps = λ k w j. refl;
          set_ok = encrypted_set_ok g.store (encrypt g) (decrypt g) plain holds store cipher;
          set_frame = encrypted_set_frame g.store (encrypt g) (decrypt g) plain holds store cipher;
        }
