-- ===== src/Kv/CloudKms/Defs.antt =====
-- pkg/kv/cloudkms/cloudkms.go, over the calls that it makes of google.golang.org/api/cloudkms/v1.
use unsealer.Prelude.{◌++◌}
use unsealer.Text.{Text, text}
use unsealer.Effect.{wrapped, Result, ok, err, Call, pure, wrapping, ◌>>=◌}
use unsealer.Base64.{encode}
use unsealer.Kv.Defs.{Service}
use unsealer.Base64.Calls.{decode_string}

-- Both calls name the key, and send and receive base64.
pub record CloudKmsClient (K : Type 0) : Type 0 where
  pub encrypt : Text → Text → Call K Text
  pub decrypt : Text → Text → Call K Text

pub record GoogleKms (K : Type 0) : Type 0 where
  pub svc : CloudKmsClient K
  pub store : Service K
  pub key_path : Text

unfoldable pub key_path_of : Text → Text → Text → Text → Text
key_path_of project location keyring crypto_key =
    text "projects/"
    ++ (project
        ++ (text "/locations/"
            ++ (location
                ++ (text "/keyRings/" ++ (keyring ++ (text "/cryptoKeys/" ++ crypto_key))))))

-- `New`, given the result of `cloudkms.NewService`.
unfoldable pub new :
    {K : Type 0}
    → Result (CloudKmsClient K)
    → Service K
    → Text
    → Text
    → Text
    → Text
    → Result (GoogleKms K)
unfolding key_path_of
new (ok svc) store project location keyring crypto_key = ok (record {
  svc = svc;
  store = store;
  key_path = key_path_of project location keyring crypto_key;
})
new (err e) store project location keyring crypto_key =
    err (wrapped (text "error creating google kms service client: ") e)

module _ {K : Type 0} (g : GoogleKms K) where
  unfoldable pub encrypt : Text → Call K Text
  encrypt s = do
    ciphertext ← wrapping (text "error encrypting data: ") (g.svc.encrypt g.key_path (encode s))
    decode_string ciphertext

  unfoldable pub decrypt : Text → Call K Text
  decrypt s = do
    plaintext ← wrapping (text "error decrypting data: ") (g.svc.decrypt g.key_path (encode s))
    decode_string plaintext

  unfoldable pub get : Text → Call K Text
  get key = do cipher_text ← g.store.get key; decrypt cipher_text

  unfoldable pub set : Text → Text → Call K Unit
  set key value = do cipher_text ← encrypt value; g.store.set key cipher_text

  -- `Test` is not implemented in the source and always succeeds.
  unfoldable pub service : Service K
  unfolding get set
  service = record {
    set = set;
    get = get;
    check_write_access = g.store.check_write_access;
    test = λ key. pure tt;
  }
