-- ===== src/Vault/Auth/Mounts.antt =====
-- The mounted auth methods of a Vault server, as pkg/vault/auth lists and enables them.
use unsealer.Prelude.{◌≡◌, refl, Bool, true, false, ◌&&◌, ◌||◌, ◌==◌, List, [], ◌∷◌, if◌then◌else◌}
use unsealer.Text.{Text, text, text_eq}
use unsealer.Effect.{ok}
use unsealer.Vault.Client.{VaultClient, AuthMount}
use unsealer.Vault.Auth.Defs.{kubernetes_enabled, kubernetes_auth_path, kubernetes_auth_type}

-- The server ends the path of a mount with a slash.
unfoldable pub with_slash : Text → Text
with_slash [] = b'/' ∷ []
with_slash (c ∷ []) = if c == b'/' then c ∷ [] else c ∷ b'/' ∷ []
with_slash (c ∷ d ∷ s) = c ∷ with_slash (d ∷ s)

-- How a method that is enabled at a path is listed.
abbrev pub as_listed : Text → Text → AuthMount
as_listed path kind = record { path = with_slash path; kind = kind }

-- What a server has mounted after its initialization.
abbrev pub new_mounts : List AuthMount
new_mounts = record { path = text "token/"; kind = text "token" } ∷ []

unfoldable pub in_use : Text → List AuthMount → Bool
in_use path [] = false
in_use path (m ∷ mounts) = text_eq m.path path || in_use path mounts

unfoldable pub mounted : Text → Text → List AuthMount → Bool
mounted path kind [] = false
mounted path kind (m ∷ mounts) =
    (text_eq m.path path && text_eq m.kind kind) || mounted path kind mounts

-- The documented behaviour of sys/auth, over a view of the mounted methods.
pub record AuthContract {V : Type 0} (c : VaultClient V) (mounts : V → List AuthMount)
    : Type 0 where
  pub list_ok : (v : V) {l : List AuthMount} → (c.list_auth v).0 ≡ ok l → l ≡ mounts v
  pub list_keeps : (v : V) → mounts (c.list_auth v).1 ≡ mounts v
  pub enable_ok :
      (path kind : Text) (v : V)
      → (c.enable_auth path kind v).0 ≡ ok tt
      → mounts (c.enable_auth path kind v).1 ≡ as_listed path kind ∷ mounts v

-- What `EnsureAuth` enables is what it looks for.
pub enabled_as_listed :
    (l : List AuthMount)
    → kubernetes_enabled (as_listed kubernetes_auth_path kubernetes_auth_type ∷ l) ≡ true
unfolding kubernetes_enabled with_slash text text_eq
enabled_as_listed l = refl
