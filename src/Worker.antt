-- ===== src/Worker.antt =====
-- pkg/worker: the options, the choice of the key store, and the loop that unseals and configures.
pub mod Options
pub mod Service
pub mod Configure
pub mod Loop
pub mod Contract
pub mod Steps
pub mod Invariants
pub mod Administers
pub mod KeySafety
pub mod Lifecycle
pub mod Stages
pub mod Refines
pub mod TooFew
pub mod LostShares
pub mod Unsealed
pub mod Sleeps
pub mod Modes
pub mod Stores
pub mod Deployed
pub mod Bootstrap
pub mod Run
pub mod Flags
pub mod FlagNames
pub mod Defaults
pub mod FirstRun
pub mod Requests
pub mod Admin
pub mod Configures
pub mod Complete
pub mod Stuck
