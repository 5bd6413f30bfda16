-- ===== src/Tests/Complete.antt =====
-- The first rounds of the worker at an empty key store and a new server in memory, with the
-- configuration.
use unsealer.Text.{text, text_eq, text_eq_refl}
use unsealer.Prelude.{
  true, not, ◌&&◌, ◌||◌, Bool-cases, inl, inr, ℕ, ◌≤◌, ◌≡◌, refl, false, some, arith, ltb,
}
use unsealer.Effect.{ok}
use unsealer.Kv.Contract.{CheckContract}
use unsealer.Vault.Unseal.InitSucceeds.{InitAvailable}
use unsealer.Worker.Admin.{AdminView, Authorized, AdminAvailable}
use unsealer.Vault.Auth.Mounts.{new_mounts}
use unsealer.Vault.Client.{InitResponse}
use unsealer.Prelude.Int.{ℤ, pos, negsuc}
use unsealer.Worker.Loop.{checking, configuring, State, step, configure_once, start as start_at}
use unsealer.Worker.Complete.{first_run}
use unsealer.Tests.Store.{Memory, memory_store, held, memory-KvContract, memory-KvAvailable}
use unsealer.Tests.Server.{
  Server, server_client, view, server-VaultContract, server-VaultAvailable, init_request,
  shares_below,
}
use unsealer.Tests.Unseal.{u, start}
use unsealer.Tests.Worker.{worker_options, server-StatusAvailable}

memory-CheckContract : CheckContract memory_store held
memory-CheckContract = record { check_frame = λ w j other. refl }

small : (n : ℕ) → n ≤ 255 → ltb 255 n ≡ false
small n h = ground arith

pub server-InitAvailable : InitAvailable server_client view
unfolding init_request
server-InitAvailable = record {
  init_answers = λ n t v fresh several fits allowed.
      (record { keys = shares_below n; root_token = text "root" }, ground (arith, small n allowed));
}

abbrev pub admin : Server → AdminView
admin s = record { client_token = s.token; root_token = text "root"; mounts = s.mounts }

init_admin :
    (n t : ℤ) (v : Server) {resp : InitResponse}
    → (init_request (record { secret_shares = n; secret_threshold = t }) v).0 ≡ ok resp
    → (text "root" ≡ resp.root_token)
      × ((init_request (record { secret_shares = n; secret_threshold = t }) v).1.mounts
          ≡ new_mounts)
unfolding init_request
init_admin (pos n) (pos t) v {resp} h = elim (Bool-cases (v.vault.initialized || ltb 255 n)) [
  | inl bad ↦ absurd (ground arith)
  | inr good ↦ (ground arith, ground arith)
]
init_admin (pos n) (negsuc t) v h = absurd (cc h)
init_admin (negsuc n) t v h = absurd (cc h)

allowed :
    (v : Server)
    → Authorized v.vault (admin v)
    → not v.vault.sealed && text_eq v.token (text "root") ≡ true
allowed v may = rw (may.opened, may.as_root) (text_eq_refl (text "root"))

pub server-AdminAvailable : AdminAvailable server_client view admin worker_options
server-AdminAvailable = record {
  init_admin = λ q v {resp} fresh h. init_admin q.secret_shares q.secret_threshold v h;
  seal_status_admin = λ v. refl;
  unseal_admin = λ k v. refl;
  set_token_admin = λ token v. (refl, refl);
  list_auth_answers = λ v may. rw (allowed v may) (refl, refl, refl);
  enable_auth_answers = λ path v may free. rw (allowed v may) (refl, refl, refl);
  put_policy_answers = λ v may. rw (allowed v may) (refl, refl, refl);
  body_answers = λ r body. refl;
  request_answers = λ r v which may there. rw (allowed v may) (refl, refl, refl);
}

abbrev new_state : State Memory Server
new_state = start_at start

first_run_example :
    (s' : State Memory Server) × (s'' : State Memory Server) × (step u worker_options 3 new_state
      ≡ some s')
    × (step u worker_options 3 s' ≡ some s'')
    × (s'.phase ≡ configuring)
    × ((configure_once u worker_options s'.world).0 ≡ ok tt)
    × (s''.phase ≡ checking)
    × ((view s''.world.vault).sealed ≡ false)
first_run_example =
    first_run u worker_options held view memory-KvContract memory-CheckContract server-VaultContract
      memory-KvAvailable server-VaultAvailable server-StatusAvailable server-InitAvailable admin
      server-AdminAvailable 5 3 new_state refl refl refl refl refl (omega arith) (omega arith)
      (omega arith) refl (λ i. refl) refl
