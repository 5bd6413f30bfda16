-- ===== src/Tests/Encryption.antt =====
-- The encrypting key stores over the key store in memory, with a cipher that adds a byte in front.
use mathlib.Core.Path.{subst}
use unsealer.Prelude.{List, ◌≡◌, refl, Option, none, some, [], ◌∷◌, arith, if◌then◌else◌}
use unsealer.Text.{Text, IsBytes, text, text_eq}
use unsealer.Effect.{plain, Result, ok, err}
use unsealer.Base64.{encode, decode}
use unsealer.Base64.RoundTrip.{decode-encode}
use unsealer.Kv.Contract.{KvContract}
use unsealer.Kv.Encrypted.{decrypted}
use unsealer.Kv.AwsKms.Defs.{AwsKms, encrypt, decrypt, test, service as kms_service}
use unsealer.Kv.AwsKms.Contract.{KmsContract, kms-KvContract}
use unsealer.Kv.CloudKms.Defs.{GoogleKms, service as google_service}
use unsealer.Kv.CloudKms.Contract.{CloudKmsContract, google-KvContract}
use unsealer.Tests.Store.{
  Memory, held, memory_store, memory-KvContract, empty_memory, all_bytes, all_bytes-IsBytes,
  IsBytes-all_bytes,
}

-- A cipher text is a 7 and the plain text, which must be bytes.
abbrev opened : Text → Option Text
opened [] = none
opened (c ∷ s) = if all_bytes s then some s else none

abbrev decrypt_answer : Option Text → Result Text
decrypt_answer none = err (plain (text "InvalidCiphertextException"))
decrypt_answer (some p) = ok p

-- The service refuses to work without a context.
abbrev opened_in : List (Text × Text) → Text → Option Text
opened_in [] c = none
opened_in (x ∷ context) c = opened c

abbrev encrypt_in : List (Text × Text) → Text → Result Text
encrypt_in [] p = err (plain (text "InvalidCiphertextException"))
encrypt_in (x ∷ context) p = ok (7 ∷ p)

abbrev toy_kms : AwsKms Memory
toy_kms = record {
  store = memory_store;
  kms_service = record {
    encrypt = λ q w. (encrypt_in q.encryption_context q.plaintext, w);
    decrypt = λ q w. (decrypt_answer (opened_in q.encryption_context q.ciphertext_blob), w);
  };
  kms_id = text "alias/vault";
}

opened-IsBytes : (c p : Text) → decrypt_answer (opened c) ≡ ok p → (opened c ≡ some p) × IsBytes p
opened-IsBytes [] p h = absurd (cc h)
opened-IsBytes (c ∷ s) p h = (ground arith, all_bytes-IsBytes p (ground arith))

opened-cons : (p : Text) → IsBytes p → opened (7 ∷ p) ≡ some p
opened-cons p h = rw (IsBytes-all_bytes p h) refl

encrypt_in_ok :
    (context : List (Text × Text)) (p c : Text)
    → IsBytes p
    → encrypt_in context p ≡ ok c
    → (opened_in context c ≡ some p) × IsBytes c
encrypt_in_ok [] p c bytes h = absurd (cc h)
encrypt_in_ok (x ∷ context) p c bytes h =
    let same : 7 ∷ p ≡ c = cc h in
    subst (λ d. (opened d ≡ some p) × IsBytes d) same (opened-cons p bytes, (omega arith, bytes))

opened_in-IsBytes :
    (context : List (Text × Text)) (c p : Text)
    → decrypt_answer (opened_in context c) ≡ ok p
    → (opened_in context c ≡ some p) × IsBytes p
opened_in-IsBytes [] c p h = absurd (cc h)
opened_in-IsBytes (x ∷ context) c p h = opened-IsBytes c p h

toy-KmsContract : KmsContract toy_kms.kms_service opened_in held
toy-KmsContract = record {
  encrypt_ok = λ q w {r} bytes h. encrypt_in_ok q.encryption_context q.plaintext r bytes h;
  decrypt_ok = λ q w {p} h. opened_in-IsBytes q.encryption_context q.ciphertext_blob p h;
  decrypt_foreign = λ q w {e} h. ground arith;
  encrypt_keeps = λ q w j. refl;
  decrypt_keeps = λ q w j. refl;
}

kms-KvContract_example : KvContract (kms_service toy_kms) (λ w j. decrypted opened (held w j))
kms-KvContract_example = kms-KvContract toy_kms opened_in held memory-KvContract toy-KmsContract

toy_test : (test toy_kms (text "vault-test") empty_memory).0 ≡ ok tt
unfolding test encrypt decrypt all_bytes text text_eq
toy_test = refl

-- The same cipher in base64, as Cloud KMS exchanges it.
abbrev encrypt_base64 : Option Text → Result Text
encrypt_base64 none = err (plain (text "INVALID_ARGUMENT"))
encrypt_base64 (some p) =
    if all_bytes p then ok (encode (7 ∷ p)) else err (plain (text "INVALID_ARGUMENT"))

abbrev decrypt_base64 : Option Text → Result Text
decrypt_base64 none = err (plain (text "INVALID_ARGUMENT"))
decrypt_base64 (some c) = elim (opened c) [
  | none ↦ err (plain (text "INVALID_ARGUMENT"))
  | some p ↦ ok (encode p)
]

abbrev toy_google : GoogleKms Memory
toy_google = record {
  svc = record {
    encrypt = λ path s w. (encrypt_base64 (decode s), w);
    decrypt = λ path s w. (decrypt_base64 (decode s), w);
  };
  store = memory_store;
  key_path = text "projects/p/locations/global/keyRings/r/cryptoKeys/k";
}

encrypted_base64 :
    (p answer : Text)
    → encrypt_base64 (some p) ≡ ok answer
    → (c : Text) × (decode answer ≡ some c) × (opened c ≡ some p)
encrypted_base64 p answer h =
    let bytes : IsBytes p = all_bytes-IsBytes p (ground arith) in
    let same : encode (7 ∷ p) ≡ answer = ground arith in
    (7 ∷ p, rw (← same) (decode-encode (7 ∷ p) (omega arith, bytes)), opened-cons p bytes)

decrypted_base64 :
    (c answer : Text)
    → decrypt_base64 (some c) ≡ ok answer
    → (p : Text) × (decode answer ≡ some p) × (opened c ≡ some p)
decrypted_base64 [] answer h = absurd (cc h)
decrypted_base64 (b ∷ s) answer h =
    let bytes : IsBytes s = all_bytes-IsBytes s (ground arith) in
    let same : encode s ≡ answer = ground arith in
    (s, rw (← same) (decode-encode s bytes), ground arith)

toy-CloudKmsContract : CloudKmsContract toy_google.svc toy_google.key_path opened held
toy-CloudKmsContract = record {
  encrypt_ok = λ p w {sent} {answer} sends h. encrypted_base64 p answer (rw sends at h);
  decrypt_ok = λ c w {sent} {answer} sends h. decrypted_base64 c answer (rw sends at h);
  encrypt_keeps = λ s w j. refl;
  decrypt_keeps = λ s w j. refl;
}

google-KvContract_example :
    KvContract (google_service toy_google) (λ w j. decrypted opened (held w j))
google-KvContract_example =
    google-KvContract toy_google opened held toy-CloudKmsContract memory-KvContract
