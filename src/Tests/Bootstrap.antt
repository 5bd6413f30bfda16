-- ===== src/Tests/Bootstrap.antt =====
-- The run command over an empty Kubernetes API and a new Vault server in memory.
use unsealer.Prelude.{none}
use unsealer.Vault.World.{World}
use unsealer.Worker.Loop.{start as start_at}
use unsealer.Tests.Server.{Server}
use unsealer.Tests.Unseal.{new_server}
use unsealer.Tests.Secrets.{Cluster}

abbrev new_world : World Cluster Server
new_world = record { store = λ m. none; vault = new_server }
