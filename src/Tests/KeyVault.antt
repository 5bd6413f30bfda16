-- ===== src/Tests/KeyVault.antt =====
-- The theorems on pkg/kv/azure.
use unsealer.Prelude.{◌≡◌, ◌⊎◌, refl, none, Option, some, [], ◌∷◌}
use unsealer.Prelude.Int.{pos}
use unsealer.Text.{Text, text, text_eq}
use unsealer.Effect.{Result, Error, plain, ok, err}
use unsealer.Kv.Azure.Base.{base, strip_slashes, last_component, has_slash}
use unsealer.Kv.Azure.Versions.{
  SecretItem, Versions, done, page, Latest, no_version, latest_of, scan_item, scan_items,
  scan_pages,
}
use unsealer.Kv.Azure.Latest.{listed, IsLatest}
use unsealer.Kv.Azure.Defs.{AzureStore, get, set, service}
use unsealer.Base64.{decode}
use unsealer.Kv.Azure.Versions.{to_string}
use unsealer.Kv.Azure.Reads.{get_reads_latest}
use unsealer.Kv.Azure.Defs.{get_secret, get_latest_version_of_secret}
use unsealer.Kv.Azure.Outage.{key_store_set_outage}
use unsealer.Vault.World.{World, on_store}
use unsealer.Vault.Unseal.Defs.{Unsealer, key_store_set}
use unsealer.Tests.Server.{Server, server_client}
use unsealer.Tests.Unseal.{options, new_server}

-- The second of three versions, on two pages, is the latest one.
abbrev first_item : SecretItem
first_item = record { id = some (text "s/a/0"); created = pos 10 }

abbrev second_item : SecretItem
second_item = record { id = some (text "s/a/1"); created = pos 30 }

abbrev third_item : SecretItem
third_item = record { id = some (text "s/a/2"); created = pos 20 }

abbrev pages : Versions
pages = page (first_item ∷ second_item ∷ []) (page (third_item ∷ []) done)

abbrev found : Latest
found = record { version = text "1"; created_time = pos 30 }

second_found : scan_pages no_version pages ≡ ok found
unfolding scan_pages scan_items scan_item latest_of base strip_slashes last_component has_slash text
    text_eq
second_found = refl

-- A key vault that is offline.
abbrev offline : Error
offline = plain (text "connection refused")

abbrev toy_store : AzureStore (Option Text)
toy_store = record {
  key_client = record {
    set_secret = λ url name p w. (ok tt, some p.value);
    get_secret = λ url name version w. (err offline, w);
    get_secret_versions = λ url name n w. (err offline, w);
    delete_secret = λ url name w. (err offline, w);
  };
  vault_base_url = text "https://keys.vault.azure.net";
  secret_prefix = [];
}

abbrev toy_unsealer : Unsealer (Option Text) Server
toy_unsealer = record { key_store = service toy_store; cl = server_client; config = options }

abbrev before : World (Option Text) Server
before = record { store = some (text "b2xk"); vault = new_server }

key_store_set_outage_example :
    key_store_set toy_unsealer (text "vault-root-token") (text "new") before
    ≡ on_store
        (set toy_store (text "vault-root-token") (text "new"))
        (record before { store = (get toy_store (text "vault-root-token") before.store).1 })
key_store_set_outage_example =
    key_store_set_outage toy_store toy_unsealer (text "vault-root-token") (text "new") before
      {e = offline} refl refl refl

-- A key vault that answers, with the three versions above.
abbrev online : AzureStore (Option Text)
online = record {
  key_client = record {
    set_secret = λ url name p w. (ok tt, some p.value);
    get_secret = λ url name version w. (ok w, w);
    get_secret_versions = λ url name n w. (ok pages, w);
    delete_secret = λ url name w. (ok tt, none);
  };
  vault_base_url = text "https://keys.vault.azure.net";
  secret_prefix = text "demo-";
}

get_runs : (get online (text "vault-root-token") (some (text "b2xk"))).0 ≡ ok (text "old")
unfolding get get_secret get_latest_version_of_secret scan_pages scan_items scan_item latest_of base
    strip_slashes last_component has_slash text text_eq decode
get_runs = refl

get_reads_latest_example :
    (p : Versions) × (r : Latest) × (text_read : Option Text) × (◌≡◌ {A = Result Versions}
      (ok pages)
      (ok p))
    × (((listed p ≡ []) × (r ≡ no_version)) ⊎ IsLatest r (listed p))
    × (◌≡◌ {A = Result (Option Text)} (ok (some (text "b2xk"))) (ok text_read))
    × (decode (to_string text_read) ≡ some (text "old"))
get_reads_latest_example =
    get_reads_latest online (text "vault-root-token") (some (text "b2xk")) {v = text "old"} get_runs
