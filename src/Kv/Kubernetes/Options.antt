-- ===== src/Kv/Kubernetes/Options.antt =====
-- pkg/kv/kubernetes/options.go.
use unsealer.Prelude.{List}
use unsealer.Text.{Text, text}
use unsealer.Effect.{Error}
use unsealer.Validation.{complain, is_blank}

pub record KubernetesOptions : Type 0 where
  pub secret_name : Text

unfoldable pub validate_kubernetes : KubernetesOptions → List Error
validate_kubernetes o = complain (is_blank o.secret_name) (text "secret name must be non-empty")
