-- ===== src/Kv/AwsSsm/Contract.antt =====
-- The documented behaviour of the AWS parameter store, and `awsSSM` of pkg/kv/aws_ssm as a key store
-- over it.
use unsealer.Prelude.{
  ◌≡◌, ◌∙◌, refl, ap, Bool, true, false, Option, none, some, List, [], ◌∷◌, ◌++◌, arith, inl, inr,
  if◌then◌else◌, Bool-cases,
}
use mathlib.Core.Path.{subst}
use unsealer.Text.{Text, IsBytes, text, text_eq, text_eq_iff, text_eq-append}
use unsealer.Effect.{Error, Result, ok, err, Result-cases}
use unsealer.Base64.{decoded, encode, decode}
use unsealer.Base64.RoundTrip.{decode-encode, decode-IsBytes}
use unsealer.Kv.Defs.{dummy_key, dummy_value, is_not_found}
use unsealer.Kv.Contract.{KvContract, CheckContract}
use unsealer.Kv.Aws.{SsmClient, PutParameterInput}
use unsealer.Kv.AwsSsm.Defs.{
  AwsSsm, name, first_value, get, set, put_input, check_write_access, service,
}

-- A parameter. The cipher text is what a secure string is kept as.
pub record Parameter : Type 0 where
  pub kind : Text
  pub value : Text
  pub cipher_text : Text

-- What a read shows: a secure string is decrypted only with `WithDecryption`.
unfoldable pub shown : Bool → Parameter → Text
shown true p = p.value
shown false p = if text_eq p.kind (text "SecureString") then p.cipher_text else p.value

abbrev pub shown_at : Bool → Option Parameter → Option Text
shown_at b none = none
shown_at b (some p) = some (shown b p)

abbrev pub to_list : Option Text → List Text
to_list none = []
to_list (some value) = value ∷ []

-- The documented behaviour of the calls, over a view of the parameters by name. A call that fails
-- may still have changed the parameter that it names.
pub record SsmContract {K : Type 0} (c : SsmClient K) (parameters : K → Text → Option Parameter)
    : Type 0 where
  pub get_ok :
      (n : Text) (with_decryption : Bool) (w : K) {values : List Text}
      → (c.get_parameters (n ∷ []) with_decryption w).0 ≡ ok values
      → values ≡ to_list (shown_at with_decryption (parameters w n))
  pub get_foreign :
      (ns : List Text) (b : Bool) (w : K) {e : Error}
      → (c.get_parameters ns b w).0 ≡ err e
      → is_not_found e ≡ false
  pub get_keeps :
      (ns : List Text) (b : Bool) (w : K) (j : Text)
      → parameters (c.get_parameters ns b w).1 j ≡ parameters w j
  -- The type and the value are those of the request; the service makes the cipher text.
  pub put_ok :
      (p : PutParameterInput) (w : K)
      → p.overwrite ≡ true
      → (c.put_parameter p w).0 ≡ ok tt
      → (q : Parameter) × (parameters (c.put_parameter p w).1 p.name ≡ some q)
        × (q.kind ≡ p.kind)
        × (q.value ≡ p.value)
  pub put_frame :
      (p : PutParameterInput) (w : K) (j : Text)
      → text_eq p.name j ≡ false
      → parameters (c.put_parameter p w).1 j ≡ parameters w j
  pub delete_frame :
      (n : Text) (w : K) (j : Text)
      → text_eq n j ≡ false
      → parameters (c.delete_parameter n w).1 j ≡ parameters w j

module _ {K : Type 0} (a : AwsSsm K) (parameters : K → Text → Option Parameter)
    (ssm : SsmContract a.ssm_service parameters) where
  abbrev pub stored : K → Text → Option Text
  stored w key = decoded (shown_at a.use_secure_string (parameters w (a.key_prefix ++ key)))

  -- A parameter that was written with the type of the configuration is read back.
  shown_kind :
      (q : Parameter)
      → q.kind ≡ (if a.use_secure_string then text "SecureString" else text "String")
      → shown a.use_secure_string q ≡ q.value
  unfolding shown text text_eq
  shown_kind q kind = elim (Bool-cases a.use_secure_string) [
    | inl secure ↦ rw secure refl
    | inr not_secure ↦
        let string : q.kind ≡ text "String" = rw not_secure at kind in rw (not_secure, string) refl
  ]

  abbrev found : Text → K → Result (List Text)
  found k w = (a.ssm_service.get_parameters (name a k ∷ []) a.use_secure_string w).0

  get_ok : (k : Text) (w : K) {v : Text} → (get a k w).0 ≡ ok v → stored w k ≡ some v
  unfolding get
  get_ok k w {v} h = elim (Result-cases (found k w)) [
    | inl (values, p) ↦ ground (arith, ssm.get_ok (name a k) a.use_secure_string w p)
    | inr (e, p) ↦ ground arith
  ]

  first_value-IsBytes :
      (k : Text) (values : List Text) (v : Text) (w : K)
      → (first_value a k values w).0 ≡ ok v
      → IsBytes v
  unfolding first_value
  first_value-IsBytes k [] v w h = absurd (cc h)
  first_value-IsBytes k (value ∷ values) v w h = decode-IsBytes value v (ground arith)

  get-IsBytes : (k : Text) (w : K) {v : Text} → (get a k w).0 ≡ ok v → IsBytes v
  unfolding get
  get-IsBytes k w {v} h = elim (Result-cases (found k w)) [
    | inl (values, p) ↦
        first_value-IsBytes k values v
          (a.ssm_service.get_parameters (name a k ∷ []) a.use_secure_string w).1 (ground arith)
    | inr (e, p) ↦ absurd (ground arith)
  ]

  get_missing :
      (k : Text) (w : K) {e : Error}
      → (get a k w).0 ≡ err e
      → is_not_found e ≡ true
      → stored w k ≡ none
  unfolding get
  get_missing k w {e} h missing = elim (Result-cases (found k w)) [
    | inl (values, p) ↦ ground (arith, ssm.get_ok (name a k) a.use_secure_string w p)
    | inr (f, p) ↦ ground (arith, ssm.get_foreign (name a k ∷ []) a.use_secure_string w p)
  ]

  get_keeps : (k : Text) (w : K) (j : Text) → stored (get a k w).1 j ≡ stored w j
  unfolding get
  get_keeps k w j = ground (arith, ssm.get_keeps (name a k ∷ []) a.use_secure_string w (name a j))

  set_frame :
      (k v : Text) (w : K) (j : Text) → text_eq k j ≡ false → stored (set a k v w).1 j ≡ stored w j
  unfolding set
  set_frame k v w j other =
      ground (arith, ssm.put_frame (put_input a k v) w (name a j), text_eq-append a.key_prefix k j)

  set_ok :
      (k v : Text) (w : K) (j : Text)
      → IsBytes v
      → (set a k v w).0 ≡ ok tt
      → stored (set a k v w).1 j ≡ (if text_eq k j then some v else stored w j)
  unfolding set put_input name
  set_ok k v w j bytes h = elim (Bool-cases (text_eq k j)) [
    | inl same ↦
        let (q, there, kind, value) = put_there in
        let here : k ≡ j = (text_eq_iff k j).0 same in
        rw same (
          subst (λ i. stored (set a k v w).1 i ≡ some v) here
            (ap (λ o. decoded (shown_at a.use_secure_string o)) there
              ∙ ap decode (shown_kind q kind ∙ value)
              ∙ decode-encode v bytes))
    | inr other ↦ rw other (set_frame k v w j other)
  ]
    where
      put_there :
          (q : Parameter) × (parameters (set a k v w).1 (name a k) ≡ some q)
          × (q.kind ≡ (if a.use_secure_string then text "SecureString" else text "String"))
          × (q.value ≡ encode v)
      put_there = ssm.put_ok (put_input a k v) w refl h

  check_frame :
      (w : K) (j : Text)
      → text_eq dummy_key j ≡ false
      → stored (check_write_access a w).1 j ≡ stored w j
  unfolding check_write_access name
  check_frame w j other =
      let w₁ = (set a dummy_key dummy_value w).1 in
      let w₂ = (get a dummy_key w₁).1 in
      let deleted : parameters (a.ssm_service.delete_parameter (name a dummy_key) w₂).1 (name a j)
          ≡ parameters w₂ (name a j) =
        ssm.delete_frame (name a dummy_key) w₂ (name a j)
          (text_eq-append a.key_prefix dummy_key j ∙ other) in
      ground (
        arith,
        set_frame dummy_key dummy_value w j other,
        get_keeps dummy_key w₁ j,
        ap (λ o. decoded (shown_at a.use_secure_string o)) deleted,
      )

  -- Over a parameter store that behaves as documented, where a secure string is decrypted only for a
  -- read that asks for it, `awsSSM` is a key store that keeps its clients' contract for what its
  -- reads show, and its access check leaves every other key.
  pub ssm-KvContract : KvContract (service a) stored × CheckContract (service a) stored
  unfolding service
  ssm-KvContract = (
    record {
      get_ok = λ k w. get_ok k w;
      get_bytes = λ k w. get-IsBytes k w;
      get_missing = λ k w. get_missing k w;
      get_keeps = get_keeps;
      test_keeps = λ k w j. refl;
      set_ok = set_ok;
      set_frame = set_frame;
    },
    record { check_frame = check_frame },
  )
