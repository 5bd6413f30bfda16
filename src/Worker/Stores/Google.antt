-- ===== src/Worker/Stores/Google.antt =====
-- The key store that `getKVService` of pkg/worker/worker.go makes for Google Cloud.
use unsealer.Prelude.{◌≡◌, refl, Option, inl, inr}
use unsealer.Text.{Text}
use unsealer.Effect.{ok, Result-cases}
use unsealer.Kv.{Service}
use unsealer.Kv.Contract.{KvContract}
use unsealer.Kv.Encrypted.{decrypted}
use unsealer.Kv.Gcs
use unsealer.Kv.Gcs.Defs.{GcsClient, GcsStorage, object_name_with_prefix}
use unsealer.Kv.Gcs.Contract.{GcsContract, gcs-KvContract}
use unsealer.Kv.CloudKms
use unsealer.Kv.CloudKms.Defs.{CloudKmsClient, GoogleKms, key_path_of}
use unsealer.Kv.CloudKms.Contract.{CloudKmsContract, google-KvContract as google_kms-KvContract}
use unsealer.Kv.CloudKms.Options.{GoogleOptions}
use unsealer.Worker.Service.{Backends, google_service}
use unsealer.Worker.Stores.Kept.{Views, KvContract-same, not_made}

module _ {K : Type 0} (b : Backends K) (v : Views K) where
  abbrev pub gcs_of : GcsClient K → GoogleOptions → GcsStorage K
  gcs_of c o = record { cl = c; bucket = o.storage_bucket; prefix = o.storage_prefix }

  abbrev pub gcs_view : GoogleOptions → K → Text → Option Text
  gcs_view o w key =
      v.objects w (record {
        bucket = o.storage_bucket;
        object = object_name_with_prefix o.storage_prefix key;
      })

  abbrev pub cloud_key : GoogleOptions → Text
  cloud_key o = key_path_of o.kms_project o.kms_location o.kms_key_ring o.kms_crypto_key

  abbrev pub google_view : GoogleOptions → K → Text → Option Text
  google_view o w key = decrypted v.google_plain (gcs_view o w key)

  pub google-KvContract :
      (o : GoogleOptions) (s : Service K)
      → ((c : GcsClient K) → b.gcs ≡ ok c → GcsContract c v.objects)
      → ((c : CloudKmsClient K)
          → b.cloud_kms ≡ ok c
          → CloudKmsContract c (cloud_key o) v.google_plain (gcs_view o))
      → google_service b o ≡ ok s
      → KvContract s (google_view o)
  unfolding google_service Gcs.new CloudKms.new
  google-KvContract o s gcs kms h = elim (Result-cases b.gcs) [
    | inl (c, p) ↦ elim (Result-cases b.cloud_kms) [
      | inl (d, q) ↦
          let store = gcs_of c o in
          let g : GoogleKms K = record {
            svc = d;
            store = Gcs.service store;
            key_path = cloud_key o;
          } in
          let run : google_service b o ≡ ok (CloudKms.service g) = rw (p, q) refl in
          let same : CloudKms.service g ≡ s = cc (run, h) in
          KvContract-same
            (google_kms-KvContract g v.google_plain (gcs_view o) (kms d q)
              (gcs-KvContract store v.objects (gcs c p)))
            same refl
      | inr (e, q) ↦ absurd (not_made h (rw (p, q) refl))
    ]
    | inr (e, p) ↦ absurd (not_made h (rw p refl))
  ]
