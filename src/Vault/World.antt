-- ===== src/Vault/World.antt =====
-- What the unsealer acts on: the system that keeps the keys, in a state of type `K`, and the Vault
-- server, in a state of type `V`. Neither can reach into the other.
use unsealer.Effect.{Call}

pub record World (K V : Type 0) : Type 0 where
  pub store : K
  pub vault : V

module _ {K V A : Type 0} where
  abbrev pub on_store : Call K A → Call (World K V) A
  on_store m w = let (r, k) = m w.store in (r, record w { store = k })

  abbrev pub on_vault : Call V A → Call (World K V) A
  on_vault m w = let (r, v) = m w.vault in (r, record w { vault = v })
