-- ===== src/Tests.antt =====
-- Systems that meet the contracts, and the theorems at concrete inputs.
pub mod Store
pub mod Server
mod Unseal
mod Worker
mod Encryption
mod Objects
mod Buckets
mod Secrets
mod Configuration
mod KeyVault
mod Flags
mod Requests
mod Stuck
mod OneMore
mod TooFew
mod Azure
mod Complete
mod Refines
mod KeyLoop
mod Docs
mod Backends
mod Stores
mod Deployed
mod Bootstrap
