-- ===== src/Worker/Bootstrap.antt =====
-- The run command of pkg/cmds/run.go in Kubernetes, from its options to an unsealed and configured
-- vault.
use unsealer.Kv.Kubernetes
use unsealer.Kv.Kubernetes.Defs.{KubeClient, KubernetesStore}
use unsealer.Vault.World.{World}
use unsealer.Vault.Contract.{VaultView, VaultContract, VaultAvailable}
use unsealer.Vault.Client.{VaultClient}
use unsealer.Vault.Unseal.InitSucceeds.{InitAvailable}
use unsealer.Worker.Admin.{AdminView, AdminAvailable}
use unsealer.Worker.Options.{WorkerOptions}
use unsealer.Worker.Service.{Backends}
use unsealer.Worker.Unsealed.{StatusAvailable}

-- A Vault server that behaves as documented, is reached, and accepts the configuration of the options
-- from a client with its root token.
pub record Serving {V : Type 0} (c : VaultClient V) (view : V → VaultView) (admin : V → AdminView)
    (o : WorkerOptions) : Type 0 where
  pub contract : VaultContract c view
  pub unseals : VaultAvailable c view
  pub has_status : StatusAvailable c
  pub initializes : InitAvailable c view
  pub administers : AdminAvailable c view admin o

module _ {K : Type 0} (b : Backends K) where
  -- The key store that is made in Kubernetes over a client of its API.
  abbrev pub kube_store : KubeClient K → WorkerOptions → KubernetesStore K
  kube_store client o = record {
    kube_client = client;
    secret_name = o.kubernetes_options.secret_name;
    namespace = b.kubernetes.current_namespace;
  }
