-- ===== src/Tests/Objects.antt =====
-- A parameter store in memory, and the key store of pkg/kv/aws_ssm over it.
use unsealer.Prelude.{
  ℕ, ◌≡◌, refl, Bool, true, false, Option, none, some, List, [], ◌∷◌, arith, if◌then◌else◌,
}
use unsealer.Text.{Text, text, text_eq, text_eq_refl}
use unsealer.Effect.{Error, plain, Result, ok, err}
use unsealer.Kv.{is_not_found}
use unsealer.Kv.Contract.{KvContract, CheckContract}
use unsealer.Kv.AwsSsm.Defs.{AwsSsm, service as ssm_service}
use unsealer.Kv.AwsSsm.Contract.{
  SsmContract, Parameter, shown_at, to_list, ssm-KvContract, stored as ssm_stored,
}
use unsealer.Vault.Keys.{unseal_key_id, root_token_id}
use unsealer.Vault.World.{World}
use unsealer.Vault.Unseal.Defs.{Unsealer, check_read_write_access}
use unsealer.Vault.Unseal.AccessCheck.{check_keeps_keys}
use unsealer.Kv.Aws.{PutParameterInput}
use unsealer.Tests.Server.{Server, server_client}
use unsealer.Tests.Unseal.{options, new_server}

-- The parameter store: one name is asked for at a time. It encrypts by a byte in front.
abbrev Parameters : Type 0
Parameters = Text → Option Parameter

abbrev asked : Bool → Parameters → List Text → Result (List Text)
asked b w [] = err (plain (text "ValidationException"))
asked b w (n ∷ ns) = ok (to_list (shown_at b (w n)))

abbrev put : Text → Parameter → Parameters → Parameters
put n q w j = if text_eq n j then some q else w j

abbrev remove : Text → Parameters → Parameters
remove n w j = if text_eq n j then none else w j

abbrev kept : PutParameterInput → Parameter
kept p = record { kind = p.kind; value = p.value; cipher_text = 7 ∷ p.value }

abbrev toy_ssm : AwsSsm Parameters
toy_ssm = record {
  ssm_service = record {
    get_parameters = λ ns b w. (asked b w ns, w);
    put_parameter = λ p w. (ok tt, put p.name (kept p) w);
    delete_parameter = λ n w. (ok tt, remove n w);
  };
  use_secure_string = true;
  key_prefix = text "demo-";
}

abbrev parameters : Parameters → Text → Option Parameter
parameters w = w

toy-SsmContract : SsmContract toy_ssm.ssm_service parameters
toy-SsmContract = record {
  get_ok = λ n b w {values} h. ground arith;
  get_foreign = λ ns b w {e} h. refused w ns b e h;
  get_keeps = λ ns b w j. refl;
  put_ok = λ p w over h. (kept p, rw (text_eq_refl p.name) refl, refl, refl);
  put_frame = λ p w j other. ground arith;
  delete_frame = λ n w j other. ground arith;
}
  where
    refused :
        (w : Parameters) (ns : List Text) (b : Bool) (e : Error)
        → asked b w ns ≡ err e
        → is_not_found e ≡ false
    refused w [] b e h = ground arith
    refused w (n ∷ ns) b e h = absurd (cc h)

ssm-KvContract_example :
    KvContract (ssm_service toy_ssm) (ssm_stored toy_ssm parameters toy-SsmContract)
    × CheckContract (ssm_service toy_ssm) (ssm_stored toy_ssm parameters toy-SsmContract)
ssm-KvContract_example = ssm-KvContract toy_ssm parameters toy-SsmContract

-- The unsealer over this parameter store.
abbrev ssm_unsealer : Unsealer Parameters Server
ssm_unsealer = record { key_store = ssm_service toy_ssm; cl = server_client; config = options }

abbrev root_stored : World Parameters Server
root_stored = record {
  store =
      put (text "demo-vault-root-token")
        (record {
          kind = text "SecureString";
          value = text "cm9vdA==";
          cipher_text = 7 ∷ text "cm9vdA==";
        })
        (λ n. none);
  vault = new_server;
}

abbrev ssm_holds : Parameters → Text → Option Text
ssm_holds = ssm_stored toy_ssm parameters toy-SsmContract

check_keeps_keys_example :
    ((i : ℕ)
      → ssm_holds
          (check_read_write_access ssm_unsealer root_stored).1.store
          (unseal_key_id (text "vault") i)
        ≡ ssm_holds root_stored.store (unseal_key_id (text "vault") i))
    × (ssm_holds
          (check_read_write_access ssm_unsealer root_stored).1.store
          (root_token_id (text "vault"))
        ≡ ssm_holds root_stored.store (root_token_id (text "vault")))
check_keeps_keys_example =
    check_keeps_keys ssm_unsealer ssm_holds (ssm-KvContract toy_ssm parameters toy-SsmContract).1
      root_stored
