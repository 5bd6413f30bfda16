-- ===== src/Kv/Kubernetes/Entries.antt =====
-- The data of a secret in pkg/kv/kubernetes/secret.go.
use unsealer.Prelude.{◌≡◌, none, some, [], ◌∷◌, arith, if◌then◌else◌, All, Bool-cases, inl, inr}
use unsealer.Text.{Text, IsBytes, text_eq, text_eq_iff}
use unsealer.Kv.Kubernetes.Defs.{Data, lookup, insert, without}

-- Every value is bytes.
abbrev pub Bytes : Data → Type 0
Bytes = All (λ entry. IsBytes entry.1)

pub lookup-insert :
    (k j v : Text) (d : Data)
    → lookup j (insert k v d) ≡ (if text_eq k j then some v else lookup j d)
unfolding lookup insert
lookup-insert k j v [] = ground (arith, text_eq_iff k j, text_eq_iff j k)
lookup-insert k j v ((i, w) ∷ d) = ground (
  arith,
  lookup-insert k j v d,
  text_eq_iff k j,
  text_eq_iff j k,
  text_eq_iff k i,
  text_eq_iff j i,
)

pub lookup-without :
    (k j : Text) (d : Data) → lookup j (without k d) ≡ (if text_eq k j then none else lookup j d)
unfolding lookup without
lookup-without k j [] = ground arith
lookup-without k j ((i, w) ∷ d) =
    ground (arith, lookup-without k j d, text_eq_iff k j, text_eq_iff k i, text_eq_iff j i)

pub insert-Bytes : (k v : Text) (d : Data) → IsBytes v → Bytes d → Bytes (insert k v d)
unfolding insert
insert-Bytes k v [] bytes all = (bytes, tt)
insert-Bytes k v ((j, w) ∷ d) bytes all = elim (Bool-cases (text_eq k j)) [
  | inl same ↦ rw same (bytes, all.1)
  | inr other ↦ rw other (all.0, insert-Bytes k v d bytes all.1)
]

pub without-Bytes : (k : Text) (d : Data) → Bytes d → Bytes (without k d)
unfolding without
without-Bytes k [] all = tt
without-Bytes k ((j, w) ∷ d) all = elim (Bool-cases (text_eq k j)) [
  | inl same ↦ rw same (without-Bytes k d all.1)
  | inr other ↦ rw other (all.0, without-Bytes k d all.1)
]
