-- ===== src/Tests/Server.antt =====
-- A Vault server in memory, which meets its contract and always answers. Its shares are texts of
-- one byte.
use mathlib.Core.Path.{subst}
use unsealer.Prelude.{
  ℕ, zero, suc, ◌≡◌, ◌<◌, ◌≤◌, refl, ap, true, false, not, ◌&&◌, ◌||◌, List, [], ◌∷◌, arith, ltb,
  All, length, if◌then◌else◌, Bool-cases, inl, inr,
}
use unsealer.Prelude.Int.{ℤ, pos, negsuc}
use unsealer.Text.{Text, IsBytes, text, text_eq}
use unsealer.Effect.{plain, Result, ok, err}
use unsealer.Vault.Auth.Mounts.{as_listed, new_mounts}
use unsealer.Vault.Client.{SealStatus, InitRequest, InitResponse, VaultClient, AuthMount, Request}
use unsealer.Vault.Contract.{VaultView, VaultContract, VaultAvailable, AllNew, submit, contains}

pub record Server : Type 0 where
  pub vault : VaultView
  pub token : Text
  pub mounts : List AuthMount
  pub policies : List (Text × Text)
  pub requests : List Request

-- The shares n - 1, …, 0.
abbrev pub shares_below : ℕ → List Text
shares_below zero = []
shares_below (suc n) = (n ∷ []) ∷ shares_below n

length-shares_below : (n : ℕ) → length (shares_below n) ≡ n
length-shares_below zero = refl
length-shares_below (suc n) = ap suc (length-shares_below n)

IsBytes-shares_below : (n : ℕ) → n ≤ 256 → All IsBytes (shares_below n)
IsBytes-shares_below zero h = tt
IsBytes-shares_below (suc n) h = (omega arith, IsBytes-shares_below n (omega arith))

-- No text of the list is a share below `n`.
abbrev Above : ℕ → List Text → Type 0
Above n keys = (m : ℕ) → m < n → contains (m ∷ []) keys ≡ false

AllNew-shares_below : (n : ℕ) (keys : List Text) → Above n keys → AllNew (shares_below n) keys
AllNew-shares_below zero keys h = tt
AllNew-shares_below (suc n) keys h = (
  h n (omega arith),
  AllNew-shares_below n ((n ∷ []) ∷ keys) λ m lt. unfold text_eq in ground (arith, h m),
)

unfoldable pub status : VaultView → SealStatus
status v = record { sealed = v.sealed; progress = length v.pending }

abbrev fresh : ℕ → ℕ → VaultView
fresh n t = record {
  initialized = true;
  sealed = true;
  threshold = t;
  shares = shares_below n;
  pending = [];
}

abbrev refused : Server → Result InitResponse × Server
refused s = (err (plain (text "Vault is already initialized")), s)

init_with : ℕ → ℕ → Server → Result InitResponse × Server
init_with n t s = if s.vault.initialized || ltb 255 n then refused s else (
  ok (record { keys = shares_below n; root_token = text "root" }),
  record s { vault = fresh n t; mounts = new_mounts },
)

init_for : ℤ → ℤ → Server → Result InitResponse × Server
init_for (pos n) (pos t) s = init_with n t s
init_for (pos n) (negsuc t) s = refused s
init_for (negsuc n) t s = refused s

unfoldable pub init_request : InitRequest → Server → Result InitResponse × Server
unfolding init_for init_with
init_request q s = init_for q.secret_shares q.secret_threshold s

abbrev submitted : Text → VaultView → VaultView
submitted k v = if v.sealed then submit k v else v

-- Other requests are for the root token, at an unsealed vault.
abbrev pub permitted : {A : Type 0} → Server → Result A × Server → Result A × Server
permitted s r =
    if not s.vault.sealed && text_eq s.token (text "root")
    then r
    else (err (plain (text "permission denied")), s)

pub permitted_keeps :
    {A : Type 0} (P : Server → Type 0) (s : Server) (r : Result A × Server)
    → P s
    → P r.1
    → P (permitted s r).1
permitted_keeps P s r h k =
    elim (Bool-cases (not s.vault.sealed && text_eq s.token (text "root"))) [
      | inl may ↦ rw may k
      | inr may_not ↦ rw may_not h
    ]

abbrev pub server_client : VaultClient Server
server_client = record {
  seal_status = λ s. (ok (status s.vault), s);
  init_status = λ s. (ok s.vault.initialized, s);
  init = init_request;
  unseal = λ k s. (ok (status (submitted k s.vault)), record s { vault = submitted k s.vault });
  list_auth = λ s. permitted s (ok s.mounts, s);
  enable_auth =
      λ path kind s. permitted s (ok tt, record s { mounts = as_listed path kind ∷ s.mounts });
  put_policy =
      λ name rules s. permitted s (ok tt, record s { policies = (name, rules) ∷ s.policies });
  set_token = λ token s. record s { token = token };
  set_json_body = λ r body. ok (record r { body = body });
  raw_request = λ r s. permitted s (ok tt, record s { requests = r ∷ s.requests });
}

abbrev pub view : Server → VaultView
view s = s.vault

init_ok :
    (n t : ℕ) (s : Server) (resp : InitResponse)
    → s.vault.initialized ≡ false
    → (init_request (record { secret_shares = pos n; secret_threshold = pos t }) s).0 ≡ ok resp
    → (view (init_request (record { secret_shares = pos n; secret_threshold = pos t }) s).1
        ≡ record {
          initialized = true;
          sealed = true;
          threshold = t;
          shares = resp.keys;
          pending = [];
        })
      × (length resp.keys ≡ n)
      × AllNew resp.keys []
unfolding init_request
init_ok n t s resp fresh h = elim (Bool-cases (ltb 255 n)) [
  | inl big ↦ absurd (ground arith)
  | inr small ↦
      let e : (init_with n t s).0
          ≡ ok (record { keys = shares_below n; root_token = text "root" }) =
        unfold init_with in ground arith in
      let same : record { keys = shares_below n; root_token = text "root" } ≡ resp = cc (e, h) in
      (
        ground arith,
        subst (λ (r : InitResponse). length r.keys ≡ n) same (length-shares_below n),
        subst (λ (r : InitResponse). AllNew r.keys []) same
            (AllNew-shares_below n [] (λ m lt. refl)),
      )
]

init_with-IsBytes :
    (n t : ℕ) (s : Server) (resp : InitResponse)
    → (init_with n t s).0 ≡ ok resp
    → All IsBytes resp.keys × IsBytes resp.root_token
unfolding init_with
init_with-IsBytes n t s resp h = elim (Bool-cases (s.vault.initialized || ltb 255 n)) [
  | inl bad ↦ absurd (ground arith)
  | inr good ↦
      let same : record { keys = shares_below n; root_token = text "root" } ≡ resp = ground arith in
      subst (λ (r : InitResponse). All IsBytes r.keys × IsBytes r.root_token) same
        (IsBytes-shares_below n (ground arith), unfold text in omega arith)
]

init_for-IsBytes :
    (n t : ℤ) (s : Server) (resp : InitResponse)
    → (init_for n t s).0 ≡ ok resp
    → All IsBytes resp.keys × IsBytes resp.root_token
unfolding init_for
init_for-IsBytes (pos n) (pos t) s resp h = init_with-IsBytes n t s resp h
init_for-IsBytes (pos n) (negsuc t) s resp h = absurd (cc h)
init_for-IsBytes (negsuc n) t s resp h = absurd (cc h)

init-IsBytes :
    (q : InitRequest) (s : Server) (resp : InitResponse)
    → (init_request q s).0 ≡ ok resp
    → All IsBytes resp.keys × IsBytes resp.root_token
unfolding init_request
init-IsBytes q s resp h = init_for-IsBytes q.secret_shares q.secret_threshold s resp h

pub server-VaultContract : VaultContract server_client view
unfolding status
server-VaultContract = record {
  unseal_ok = λ k v {s} sealed h. ground arith;
  init_ok = λ n t s {resp} fresh h. init_ok n t s resp fresh h;
  init_bytes = λ q s {resp} h. init-IsBytes q s resp h;
  init_status_ok = λ s {b} h. ground arith;
  seal_status_ok = λ v {s} h. ground arith;
  init_status_keeps = λ s. refl;
  seal_status_keeps = λ s. refl;
}

pub server-VaultAvailable : VaultAvailable server_client view
server-VaultAvailable = record {
  unseal_answers = λ k s sealed right. (status (submitted k s.vault), refl);
}
