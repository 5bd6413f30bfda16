-- ===== src/Vault/Auth/Idempotence.antt =====
-- `EnsureAuth` of pkg/vault/auth, called more than once.
use unsealer.Prelude.{◌≡◌, true, some, List, arith, inl, inr}
use unsealer.Effect.{ok, Result-cases}
use unsealer.Vault.Client.{VaultClient, AuthMount}
use unsealer.Vault.Auth.Mounts.{AuthContract, enabled_as_listed}
use unsealer.Vault.Auth.Defs.{
  KubernetesAuthenticator, kubernetes_enabled, ensure_auth, ensure_with, kubernetes_auth_path,
  kubernetes_auth_type,
}

module _ {V : Type 0} (k : KubernetesAuthenticator V) (c : VaultClient V) (here : k.vc ≡ some c)
    (mounts : V → List AuthMount) (auth : AuthContract c mounts) where
  ensure_auth_lem : ensure_auth k ≡ ensure_with c
  unfolding ensure_auth
  ensure_auth_lem = rw (here, ensure_auth)

  -- After a call of `EnsureAuth` that returns without an error the method is enabled.
  pub ensure_auth_enables :
      (v : V) → (ensure_auth k v).0 ≡ ok tt → kubernetes_enabled (mounts (ensure_auth k v).1) ≡ true
  unfolding ensure_with
  ensure_auth_enables v h = rw ensure_auth_lem (enables v (rw ensure_auth_lem at h))
    where
      enables :
          (v : V)
          → (ensure_with c v).0 ≡ ok tt
          → kubernetes_enabled (mounts (ensure_with c v).1) ≡ true
      enables v h = elim (Result-cases (c.list_auth v).0) [
        | inl (l, p) ↦ ground (
          arith,
          auth.list_ok v p,
          auth.list_keeps v,
          auth.enable_ok kubernetes_auth_path kubernetes_auth_type (c.list_auth v).1,
          enabled_as_listed (mounts (c.list_auth v).1),
        )
        | inr (e, p) ↦ absurd (ground arith)
      ]

  -- Where the method is enabled, `EnsureAuth` does nothing but list the methods, and fails only if
  -- that does.
  pub ensure_auth_again :
      (v : V) {l : List AuthMount}
      → kubernetes_enabled (mounts v) ≡ true
      → (c.list_auth v).0 ≡ ok l
      → ensure_auth k v ≡ (ok tt, (c.list_auth v).1)
  unfolding ensure_with
  ensure_auth_again v enabled p = rw ensure_auth_lem (ground (arith, auth.list_ok v p))

  -- `EnsureAuth` may be called again, at a server that lists a method under its path with a slash at
  -- the end: after a call that returns without an error, the next one enables nothing, and fails
  -- only if the methods cannot be listed.
  pub ensure_auth_idempotent :
      (v : V) {l : List AuthMount}
      → (ensure_auth k v).0 ≡ ok tt
      → (c.list_auth (ensure_auth k v).1).0 ≡ ok l
      → ensure_auth k (ensure_auth k v).1 ≡ (ok tt, (c.list_auth (ensure_auth k v).1).1)
  ensure_auth_idempotent v h p = ensure_auth_again (ensure_auth k v).1 (ensure_auth_enables v h) p
