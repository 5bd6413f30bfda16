-- ===== src/Kv/AwsKms/Contract.antt =====
-- `awsKMS` of pkg/kv/aws_kms as a key store, over another one and a key management service.
use unsealer.Prelude.{◌≡◌, ◌∙◌, refl, ap, true, false, Option, some, List, arith, inl, inr}
use unsealer.Text.{Text, IsBytes, text, text_eq, text_eq_iff}
use unsealer.Kv.Defs.{is_not_found}
use unsealer.Kv.Aws.{KmsClient, EncryptInput, DecryptInput}
use unsealer.Effect.{Error, ok, err, Result-cases, pure, raise, wrapping}
use unsealer.Effect.Keeps.{Keeps-bind, Keeps-if, Keeps-pure, Keeps-raise}
use unsealer.Kv.Contract.{KvContract}
use unsealer.Kv.Encrypted.{
  CipherContract, decrypted, encrypted_get_ok, encrypted_get_missing, encrypted_get_keeps,
  encrypted_set_ok, encrypted_set_frame,
}
use unsealer.Kv.AwsKms.Defs.{
  AwsKms, encryption_context, encrypt, decrypt, test, input_string, mismatch_error, service,
}

-- The documented behaviour of the service: `plain` is what a cipher text stands for in an encryption
-- context, and a text is decrypted only in the context in which it was encrypted.
pub record KmsContract {K : Type 0} (c : KmsClient K)
    (plain : List (Text × Text) → Text → Option Text) (holds : K → Text → Option Text)
    : Type 0 where
  pub encrypt_ok :
      (q : EncryptInput) (w : K) {r : Text}
      → IsBytes q.plaintext
      → (c.encrypt q w).0 ≡ ok r
      → (plain q.encryption_context r ≡ some q.plaintext) × IsBytes r
  pub decrypt_ok :
      (q : DecryptInput) (w : K) {p : Text}
      → (c.decrypt q w).0 ≡ ok p
      → (plain q.encryption_context q.ciphertext_blob ≡ some p) × IsBytes p
  pub decrypt_foreign :
      (q : DecryptInput) (w : K) {e : Error} → (c.decrypt q w).0 ≡ err e → is_not_found e ≡ false
  pub encrypt_keeps : (q : EncryptInput) (w : K) (j : Text) → holds (c.encrypt q w).1 j ≡ holds w j
  pub decrypt_keeps : (q : DecryptInput) (w : K) (j : Text) → holds (c.decrypt q w).1 j ≡ holds w j

module _ {K : Type 0} (a : AwsKms K) (plain : List (Text × Text) → Text → Option Text)
    (holds : K → Text → Option Text) (store : KvContract a.store holds)
    (kms : KmsContract a.kms_service plain holds) where
  abbrev cipher_plain : Text → Option Text
  cipher_plain = plain encryption_context

  -- Both directions use the same encryption context.
  cipher : CipherContract (encrypt a) (decrypt a) cipher_plain holds
  unfolding encrypt decrypt
  cipher = record {
    encrypt_ok = λ p w {c} bytes h. kms.encrypt_ok _ w {r = c} bytes h;
    decrypt_ok = λ c w {p} bytes h. kms.decrypt_ok _ w {p = p} h;
    decrypt_foreign = λ c w {e} h. kms.decrypt_foreign _ w {e = e} h;
    encrypt_keeps = λ p w j. kms.encrypt_keeps _ w j;
    decrypt_keeps = λ c w j. kms.decrypt_keeps _ w j;
  }

  abbrev stored : K → Text → Option Text
  stored w j = decrypted cipher_plain (holds w j)

  test_keeps : (k : Text) (w : K) (j : Text) → stored (test a k w).1 j ≡ stored w j
  unfolding test
  test_keeps k w j =
      let P : K → Type 0 = λ w'. stored w' j ≡ stored w j in
      (Keeps-bind {P = P} (wrapping (text "test of backend store failed: ") (a.store.test k)) _
          (record { at = λ w' h. ap (decrypted cipher_plain) (store.test_keeps k w' j) ∙ h })
          λ done.
            Keeps-bind (encrypt a input_string) _
              (record {
                at = λ w' h.
                    ap (decrypted cipher_plain) (cipher.encrypt_keeps input_string w' j) ∙ h;
              })
              λ c.
                Keeps-bind (decrypt a c) _
                  (record {
                    at = λ w' h. ap (decrypted cipher_plain) (cipher.decrypt_keeps c w' j) ∙ h;
                  })
                  λ p.
                    Keeps-if (text_eq p input_string) (pure tt) (raise (mismatch_error p))
                      (Keeps-pure tt) (Keeps-raise (mismatch_error p))).at
        w refl

  -- If the store below keeps its contract, and the key management service decrypts, in the context in
  -- which it has encrypted it, what it has encrypted, then `awsKMS` keeps the contract for the
  -- decrypted values.
  pub kms-KvContract : KvContract (service a) stored
  unfolding service
  kms-KvContract = record {
    get_ok = λ k w {v} h.
        (encrypted_get_ok a.store (encrypt a) (decrypt a) cipher_plain holds store cipher k w h).0;
    get_bytes = λ k w {v} h.
        (encrypted_get_ok a.store (encrypt a) (decrypt a) cipher_plain holds store cipher k w h).1;
    get_missing = λ k w {e} h.
        encrypted_get_missing a.store (encrypt a) (decrypt a) cipher_plain holds store cipher k w h;
    get_keeps = encrypted_get_keeps a.store (encrypt a) (decrypt a) cipher_plain holds store cipher;
    test_keeps = test_keeps;
    set_ok = encrypted_set_ok a.store (encrypt a) (decrypt a) cipher_plain holds store cipher;
    set_frame = encrypted_set_frame a.store (encrypt a) (decrypt a) cipher_plain holds store cipher;
  }

-- `Test` returns without an error only if the test of the store below does, and the key management
-- service has turned the test string into a cipher text and that back into the test string.
pub test_sound :
    {K : Type 0} (a : AwsKms K) (k : Text) (w : K)
    → (test a k w).0 ≡ ok tt
    → let w₁ = (a.store.test k w).1 in
      let w₂ = (encrypt a input_string w₁).1 in
      ((a.store.test k w).0 ≡ ok tt)
      × ((c : Text) × ((encrypt a input_string w₁).0 ≡ ok c)
          × ((decrypt a c w₂).0 ≡ ok input_string))
unfolding test
test_sound a k w h =
    let w₁ = (a.store.test k w).1 in
    let w₂ = (encrypt a input_string w₁).1 in
    elim (Result-cases (a.store.test k w).0) [
      | inl (done, p) ↦ elim (Result-cases (encrypt a input_string w₁).0) [
        | inl (c, q) ↦ elim (Result-cases (decrypt a c w₂).0) [
          | inl (r, s) ↦
              let same : text_eq r input_string ≡ true = ground arith in
              (p, (c, q, s ∙ ap ok ((text_eq_iff r input_string).0 same)))
          | inr (e, s) ↦ absurd (ground arith)
        ]
        | inr (e, q) ↦ absurd (ground arith)
      ]
      | inr (e, p) ↦ absurd (ground arith)
    ]
