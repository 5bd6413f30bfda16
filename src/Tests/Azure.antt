-- ===== src/Tests/Azure.antt =====
-- A key vault in memory, which keeps one version of each secret and meets its contract.
use unsealer.Prelude.{
  ◌≡◌, ◌≢◌, true, List, ◌++◌, All, refl, Option, none, some, [], ◌∷◌, arith, if◌then◌else◌,
}
use unsealer.Prelude.Int.{pos}
use unsealer.Text.{Text, text, text_eq}
use unsealer.Effect.{Error, plain, Result, ok, err}
use unsealer.Kv.Contract.{KvValues, CheckContract}
use unsealer.Kv.Azure.Versions.{SecretItem, Versions, done, page}
use unsealer.Kv.Azure.Latest.{listed}
use unsealer.Kv.{is_not_found}
use unsealer.Kv.Azure.Defs.{KeyVaultClient, AzureStore, service}
use unsealer.Kv.Azure.Vault.{KeyVaultContract, DistinctTimes}
use unsealer.Kv.Azure.Contract.{azure-KvValues, azure-CheckContract, stored}
use unsealer.Tests.Store.{Memory, write}

abbrev only_version : Option Text → Versions
only_version none = done
only_version (some v) = page (record { id = some (text "1"); created = pos 1 } ∷ []) done

abbrev the_secret : Option Text → Result (Option Text)
the_secret none = err (plain (text "SecretNotFound"))
the_secret (some v) = ok (some v)

abbrev memory_vault : KeyVaultClient Memory
memory_vault = record {
  set_secret = λ url name p w. (ok tt, write name p.value w);
  get_secret = λ url name version w. (the_secret (w name), w);
  get_secret_versions = λ url name n w. (ok (only_version (w name)), w);
  delete_secret = λ url name w. (ok tt, λ j. if text_eq name j then none else w j);
}

abbrev url : Text
url = text "https://keys.vault.azure.net"

abbrev secrets : Memory → Text → Option Text
secrets w = w

memory-KeyVaultContract : KeyVaultContract memory_vault url secrets
memory-KeyVaultContract = record {
  read_latest = λ name w {p} {r} {d} listing whole latest read. ground arith;
  read_current = λ name w {d} read. ground arith;
  versions_keeps = λ name w j. refl;
  get_keeps = λ name version w j. refl;
  set_ok = λ name p w j h. refl;
  set_frame = λ name p w j other. ground arith;
  delete_frame = λ name w j other. ground arith;
}

lone :
    (o : Option Text) (before : List SecretItem) (item : SecretItem) (after : List SecretItem)
    → listed (only_version o) ≡ before ++ (item ∷ after)
    → All (λ (other : SecretItem). other.created ≢ item.created) (before ++ after)
lone none [] item after h = absurd (cc h)
lone none (x ∷ before) item after h = absurd (cc h)
lone (some v) [] item [] h = tt
lone (some v) [] item (y ∷ after) h = absurd (cc h)
lone (some v) (x ∷ []) item after h = absurd (cc h)
lone (some v) (x ∷ y ∷ before) item after h = absurd (cc h)

memory-DistinctTimes : DistinctTimes memory_vault url
memory-DistinctTimes = record {
  distinct = λ name w {p} listing before item after at.
      let same : only_version (w name) ≡ p = cc listing in
      lone (w name) before item after (rw same at);
}

abbrev prefixed : AzureStore Memory
prefixed = record { key_client = memory_vault; vault_base_url = url; secret_prefix = text "demo-" }

abbrev unprefixed : AzureStore Memory
unprefixed = record { key_client = memory_vault; vault_base_url = url; secret_prefix = [] }

azure-KvValues_example :
    KvValues (service prefixed) (stored prefixed secrets memory-KeyVaultContract)
    × ((key : Text) (w : Memory) (e : Error)
        → ((service prefixed).get key w).0 ≡ err e
        → is_not_found e ≡ true)
azure-KvValues_example =
    azure-KvValues prefixed secrets memory-KeyVaultContract memory-DistinctTimes

azure-CheckContract_example :
    CheckContract (service unprefixed) (stored unprefixed secrets memory-KeyVaultContract)
azure-CheckContract_example = azure-CheckContract unprefixed secrets memory-KeyVaultContract refl
