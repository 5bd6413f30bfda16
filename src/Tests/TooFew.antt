-- ===== src/Tests/TooFew.antt =====
-- The loop of the worker with too few shares in memory.
use unsealer.Prelude.{
  ℕ, ◌≡◌, refl, ap, sym, ◌∙◌, ◌||◌, ltb, true, none, some, [], ◌∷◌, arith, inl, inr, Bool-cases,
  if◌then◌else◌,
}
use unsealer.Prelude.Int.{pos}
use unsealer.Text.{Text, text, text_eq}
use unsealer.Text.Decimal.{decimal}
use unsealer.Effect.{Error, plain, err, ok}
use unsealer.Kv.{Service}
use unsealer.Kv.Contract.{KvContract}
use unsealer.Vault.Keys.{unseal_key_id, root_token_id, test_key}
use unsealer.Vault.World.{World}
use unsealer.Vault.Contract.{VaultFailures, contains, submit}
use unsealer.Vault.Unseal.Defs.{
  Unsealer, init, keys_to_test, test_key_store, check_no_keys, check_absent, key_store_not_found,
  unseal_key_ids, init_vault, store_unseal_keys, store_root_token, key_store_set, may_set,
  is_initialized, is_sealed, unseal, unseal_from, unseal_round,
}
use unsealer.Worker.Loop.{checking, State, step, round, check_vault, start as start_at}
use unsealer.Worker.Steps.{Steps, stay, next}
use unsealer.Worker.TooFew.{too_few_keys}
use unsealer.Worker.LostShares.{lost_shares}
use unsealer.Vault.Auth.Mounts.{new_mounts}
use unsealer.Tests.Store.{
  Memory, held, memory_store, IsBytes-all_bytes, memory-KvContract, empty_memory, write, all_bytes,
}
use unsealer.Tests.Server.{Server, server_client, view, server-VaultContract, init_request, status}
use unsealer.Tests.Unseal.{options, u, key, new_server, sealed_world, start}
use unsealer.Tests.Worker.{worker_options}

refused_same :
    (n t : ℕ) (v : Server) {e : Error}
    → (init_request (record { secret_shares = pos n; secret_threshold = pos t }) v).0 ≡ err e
    → (init_request (record { secret_shares = pos n; secret_threshold = pos t }) v).1 ≡ v
unfolding init_request
refused_same n t v h = elim (Bool-cases (v.vault.initialized || ltb 255 n)) [
  | inl bad ↦ ground arith
  | inr good ↦ absurd (ground arith)
]

pub server-VaultFailures : VaultFailures server_client view
server-VaultFailures = record {
  unseal_err = λ k v {e} sealed h. absurd (cc h);
  init_err = λ n t v {e} fresh h. inl (ap view (refused_same n t v h));
}

abbrev two_keys : Memory
two_keys = write (key 0) (4 ∷ []) (write (key 1) (3 ∷ []) empty_memory)

two_known :
    (i : ℕ) (k : Text)
    → held two_keys (key i) ≡ some k
    → contains k ((4 ∷ []) ∷ (3 ∷ []) ∷ []) ≡ true
unfolding text_eq all_bytes
two_known i k h = elim (Bool-cases (text_eq (key 0) (key i))) [
  | inl first ↦ let same : 4 ∷ [] ≡ k = ground arith in rw (← same) refl
  | inr other ↦ elim (Bool-cases (text_eq (key 1) (key i))) [
    | inl second ↦ let same : 3 ∷ [] ≡ k = ground arith in rw (← same) refl
    | inr neither ↦ absurd (ground arith)
  ]
]

abbrev short_world : World Memory Server
short_world = record sealed_world { store = two_keys }

-- The round submits both shares and fails at the third.
abbrev after_round : State Memory Server
after_round = record {
  phase = checking;
  period = pos 10000000000;
  slept = pos 1000000000 ∷ [];
  world = record {
    store = two_keys;
    vault = record new_server {
      vault = record sealed_world.vault.vault { pending = (3 ∷ []) ∷ (4 ∷ []) ∷ [] };
    };
  };
}

short_step : step u worker_options 3 (start_at short_world) ≡ some after_round
unfolding step round check_vault is_initialized is_sealed unseal unseal_from unseal_round status
    unseal_key_id text text_eq decimal all_bytes submit
short_step = refl

short_run : Steps u worker_options (start_at short_world) after_round
short_run = next 3 (start_at short_world) after_round after_round short_step (stay after_round)

too_few_keys_example :
    (after_round.phase ≡ checking) × ((view after_round.world.vault).sealed ≡ true)
too_few_keys_example =
    too_few_keys u worker_options held view memory-KvContract server-VaultContract
      server-VaultFailures ((4 ∷ []) ∷ (3 ∷ []) ∷ []) (start_at short_world) after_round short_run
      refl refl refl refl two_known (omega arith)

-- A store that refuses to write the unseal key of index 1.
abbrev fragile_store : Service Memory
fragile_store = record memory_store {
  set = λ k v w.
      if text_eq k (key 1) then (err (plain (text "timeout")), w) else (ok tt, write k v w);
}

fragile-KvContract : KvContract fragile_store held
fragile-KvContract = record {
  get_ok = memory-KvContract.get_ok;
  get_bytes = memory-KvContract.get_bytes;
  get_missing = memory-KvContract.get_missing;
  get_keeps = memory-KvContract.get_keeps;
  test_keeps = memory-KvContract.test_keeps;
  set_ok = λ k v w j bytes h. ground (arith, IsBytes-all_bytes v bytes);
  set_frame = λ k v w j other. ground arith;
}

abbrev fragile : Unsealer Memory Server
fragile = record { key_store = fragile_store; cl = server_client; config = options }

-- `Init` stores the first share only.
abbrev one_share : World Memory Server
one_share = record {
  store = write (key 0) (4 ∷ []) empty_memory;
  vault = record new_server {
    vault = record sealed_world.vault.vault { pending = [] };
    mounts = new_mounts;
  };
}

init_stops : (init fragile start).1 ≡ one_share
unfolding init test_key_store check_no_keys check_absent key_store_not_found keys_to_test
    unseal_key_ids init_vault store_unseal_keys store_root_token key_store_set may_set unseal_key_id
    root_token_id test_key text text_eq decimal all_bytes init_request
init_stops = refl

abbrev interrupted : State Memory Server
interrupted = start_at one_share

init_stopped : (view (init fragile start).1.vault).initialized ≡ true
init_stopped = ap (λ w. (view w.vault).initialized) init_stops

one_missing : held one_share.store (key 1) ≡ none
unfolding unseal_key_id text text_eq decimal all_bytes
one_missing = refl

second_missing : held (init fragile start).1.store (key 1) ≡ none
second_missing = ap (λ w. held w.store (key 1)) init_stops ∙ one_missing

-- The round submits the share and fails at the second.
abbrev waiting : State Memory Server
waiting = record {
  phase = checking;
  period = pos 10000000000;
  slept = pos 1000000000 ∷ [];
  world = record one_share {
    vault = record new_server {
      vault = record sealed_world.vault.vault { pending = (4 ∷ []) ∷ [] };
      mounts = new_mounts;
    };
  };
}

lost_step : step fragile worker_options 2 interrupted ≡ some waiting
unfolding step round check_vault is_initialized is_sealed unseal unseal_from unseal_round status
    unseal_key_id text text_eq decimal all_bytes submit
lost_step = refl

lost_run : Steps fragile worker_options interrupted waiting
lost_run = next 2 interrupted waiting waiting lost_step (stay waiting)

lost_shares_example : (waiting.phase ≡ checking) × ((view waiting.world.vault).sealed ≡ true)
lost_shares_example =
    lost_shares fragile worker_options held view fragile-KvContract server-VaultContract
      server-VaultFailures 5 3 1 start interrupted waiting refl refl (omega arith) refl (λ i. refl)
      init_stopped second_missing refl (sym init_stops) lost_run
