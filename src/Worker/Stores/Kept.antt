-- ===== src/Worker/Stores/Kept.antt =====
-- What the key stores of `getKVService` in pkg/worker/worker.go keep, as functions of the state.
use mathlib.Core.Path.{subst}
use unsealer.Prelude.{List, ap, false, ◌≡◌, Option}
use unsealer.Text.{Text}
use unsealer.Effect.{Result, ok}
use unsealer.Worker.Modes.{is_ok}
use unsealer.Kv.{Service}
use unsealer.Kv.Contract.{KvContract}
use unsealer.Kv.AwsSsm.Contract.{Parameter}
use unsealer.Kv.Gcs.Defs.{Object}
use unsealer.Kv.Kubernetes.Defs.{ObjectMeta, Secret}

-- What the four services keep, and what the cipher texts of the two encrypting ones stand for, in
-- AWS in an encryption context.
pub record Views (K : Type 0) : Type 0 where
  pub parameters : K → Text → Option Parameter
  pub aws_plain : List (Text × Text) → Text → Option Text
  pub objects : K → Object → Option Text
  pub google_plain : Text → Option Text
  pub secrets : K → Text → Option Text
  pub kube_secrets : K → ObjectMeta → Option Secret

pub KvContract-same :
    {K : Type 0} {s t : Service K} {holds view : K → Text → Option Text}
    → KvContract s holds
    → s ≡ t
    → holds ≡ view
    → KvContract t view
KvContract-same {K} {s} {t} {holds} {view} c e f =
    subst (λ x. KvContract t x) f (subst (λ x. KvContract x holds) e c)

pub not_made : {A : Type 0} {r : Result A} {a : A} → r ≡ ok a → is_ok r ≡ false → ⊥
not_made h failed = absurd (cc (failed, ap is_ok h))
