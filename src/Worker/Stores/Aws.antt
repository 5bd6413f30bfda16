-- ===== src/Worker/Stores/Aws.antt =====
-- The key store that `getKVService` of pkg/worker/worker.go makes for AWS.
use unsealer.Prelude.{◌≡◌, refl, sym, ap, false, Option, ◌++◌, inl, inr, Bool-cases, if◌then◌else◌}
use unsealer.Text.{Text}
use unsealer.Validation.{is_blank}
use unsealer.Effect.{ok, Result-cases}
use unsealer.Kv.{Service}
use unsealer.Kv.Contract.{KvContract}
use unsealer.Kv.Encrypted.{decrypted}
use unsealer.Kv.Aws.{configured_region}
use unsealer.Kv.AwsSsm
use unsealer.Kv.AwsSsm.Defs.{AwsSsm}
use unsealer.Kv.AwsSsm.Contract.{SsmContract, shown_at, ssm-KvContract}
use unsealer.Kv.AwsKms
use unsealer.Kv.AwsKms.Defs.{AwsKms, encryption_context}
use unsealer.Kv.AwsKms.Contract.{KmsContract, kms-KvContract}
use unsealer.Kv.AwsKms.Options.{AwsOptions}
use unsealer.Worker.Service.{Backends, aws_service}
use unsealer.Base64.{decoded}
use unsealer.Worker.Stores.Kept.{Views, KvContract-same, not_made}

module _ {K : Type 0} (b : Backends K) (v : Views K) where
  abbrev pub ssm_of : AwsOptions → AwsSsm K
  ssm_of o = record {
    ssm_service = b.aws.new_ssm (configured_region b.aws.metadata);
    use_secure_string = o.use_secure_string;
    key_prefix = o.ssm_key_prefix;
  }

  abbrev pub ssm_view : AwsOptions → K → Text → Option Text
  ssm_view o w key =
      decoded (shown_at o.use_secure_string (v.parameters w (o.ssm_key_prefix ++ key)))

  abbrev pub kms_of : AwsOptions → AwsKms K
  kms_of o = record {
    store = AwsSsm.service (ssm_of o);
    kms_service = b.aws.new_kms (configured_region b.aws.metadata);
    kms_id = o.kms_key_id;
  }

  -- Secure strings are encrypted by the parameter store itself.
  abbrev pub aws_view : AwsOptions → K → Text → Option Text
  aws_view o w key =
      if o.use_secure_string
      then ssm_view o w key
      else decrypted (v.aws_plain encryption_context) (ssm_view o w key)

  pub aws-KvContract :
      (o : AwsOptions) (s : Service K)
      → SsmContract (b.aws.new_ssm (configured_region b.aws.metadata)) v.parameters
      → (o.use_secure_string ≡ false
          → KmsContract (b.aws.new_kms (configured_region b.aws.metadata)) v.aws_plain (ssm_view o))
      → aws_service b o ≡ ok s
      → KvContract s (aws_view o)
  unfolding aws_service AwsSsm.new AwsSsm.new_with_session AwsKms.new AwsKms.new_with_session
  aws-KvContract o s ssm kms h =
      let below = (ssm-KvContract (ssm_of o) v.parameters ssm).0 in
      elim (Result-cases b.aws.new_session) [
        | inl (session, p) ↦ elim (Bool-cases o.use_secure_string) [
          | inl secure ↦
              let run : aws_service b o ≡ ok (AwsSsm.service (ssm_of o)) = rw (p, secure) refl in
              let same : AwsSsm.service (ssm_of o) ≡ s = cc (run, h) in
              KvContract-same below same (
                ap
                  (λ c w key.
                    if c
                    then ssm_view o w key
                    else decrypted (v.aws_plain encryption_context) (ssm_view o w key))
                  (sym secure))
          | inr not_secure ↦ elim (Bool-cases (is_blank o.kms_key_id)) [
            | inl unnamed ↦ absurd (not_made h (rw (p, not_secure, unnamed) refl))
            | inr named ↦
                let run : aws_service b o ≡ ok (AwsKms.service (kms_of o)) =
                  rw (p, not_secure, named) refl in
                let same : AwsKms.service (kms_of o) ≡ s = cc (run, h) in
                KvContract-same
                  (kms-KvContract (kms_of o) v.aws_plain (ssm_view o) below (kms not_secure)) same
                  (ap
                    (λ c w key.
                      if c
                      then ssm_view o w key
                      else decrypted (v.aws_plain encryption_context) (ssm_view o w key))
                    (sym not_secure))
          ]
        ]
        | inr (e, p) ↦ absurd (not_made h (rw p refl))
      ]
