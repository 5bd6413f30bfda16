-- ===== src/Vault/Unseal.antt =====
-- pkg/vault/unseal: the unsealer. A method is a call on the world; `Unseal`, whose loop has no bound
-- of its own, takes fuel.
pub mod Defs
pub mod Rounds
pub mod Termination
pub mod Success
pub mod Soundness
pub mod KeySafety
pub mod Writes
pub mod InitStores
pub mod RoundTrip
pub mod Options
pub mod AccessCheck
pub mod OneMore
pub mod OneRequest
pub mod Interrupted
pub mod Same
pub mod InitLeaves
pub mod InitSucceeds
pub mod KeyLoop
