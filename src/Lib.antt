-- ===== src/Lib.antt =====
-- The Vault unsealer: a worker that initializes and unseals a HashiCorp Vault server, keeps its keys
-- in a key store, and configures the server for Kubernetes.
--
-- Parts of the program and the modules that model them:
--   pkg/kv/storage.go              Kv/Defs: the interface kv.Service as the record `Service`.
--   pkg/kv/aws_ssm, pkg/kv/util    Kv/AwsSsm, Kv/Aws
--   pkg/kv/aws_kms                 Kv/AwsKms, over another key store
--   pkg/kv/gcs                     Kv/Gcs
--   pkg/kv/cloudkms                Kv/CloudKms, over another key store
--   pkg/kv/kubernetes              Kv/Kubernetes
--   pkg/kv/azure                   Kv/Azure
--   pkg/vault/util/util.go         Vault/Keys: the names of the stored keys
--   pkg/vault/vault.go             Vault/Connection
--   pkg/vault/unseal               Vault/Unseal
--   pkg/vault/auth                 Vault/Auth
--   pkg/vault/policy               Vault/Policy
--   pkg/worker                     Worker; Worker/Flags and Worker/Defaults have the flags and the
--                                  defaults of all options, over Flags
--   pkg/cmds, cmd/vault-unsealer   Commands, and Worker/Run for the run command up to its loop
--   hack/gendocs                   Docs
-- A Go function `fooBar` is the definition `foo_bar`, a method takes its receiver first, and `New` is
-- `new`. Text and Base64 model what the program uses of fmt, strings and encoding/base64; a text is
-- a list of bytes. Effect holds Go's errors and the calls: a call takes the state of the external
-- system and returns its result with the next state, after an error too. Vault/World pairs the state
-- of the key store with that of the Vault server, and the two can reach each other only through the
-- worker.
--
-- The worker makes a key store by its mode (Worker/Service) and a client of the Vault server
-- (Vault/Connection), puts them into an unsealer (Worker/Run), and then repeats the rounds of
-- Worker/Loop: it initializes the server if needed, asks for the seal status, unseals, and
-- configures (Worker/Configure). A state of the loop says which of the two nested loops is at its
-- head, what it has slept and what the next sleep takes; Worker/Steps has the runs. Worker/Lifecycle is
-- an abstract machine on the stage of the vault (fresh, closed, opened) that the loop refines, and
-- Worker/Invariants the rule by which the loops keep a predicate. Worker/Stores has, for each mode, what
-- the key store keeps in terms of the state of the cloud service, and Worker/Deployed puts the command,
-- its key store and its loop together. Worker/Bootstrap follows the command in Kubernetes, over
-- Kv/Kubernetes/Available, from its options to a configured vault.
--
-- Third-party code is a parameter: the records VaultClient, SsmClient, KmsClient, GcsClient,
-- CloudKmsClient, KubeClient, KeyVaultClient and the records of constructors beside them. What the
-- program relies on of them are the records named ...Contract, with a view of the external state,
-- ...Available where a theorem needs that calls succeed, and ...Failures for the effects of a call whose
-- answer is lost. KvContract in Kv/Contract is the
-- contract of a key store, which the unsealer's theorems use and which every store's theorem but Azure's gives.
-- Azure's `Get` reports every error as a missing key, so that its store keeps KvValues only, the
-- contract without what a missing key says; it is taken for granted besides that no two versions of a
-- secret have the same creation time. In AWS a secure string is decrypted only on request, and a
-- store that does not ask for it has the cipher text of one for its value. A Vault server need accept
-- the configuration only from a client with its root token (Worker/Admin).
-- The modules below Tests have a store, a server and cloud services in memory that meet them.
--
-- Fuel: the loop of `Unseal` has no bound of its own and takes fuel, one for each round. A round
-- ends the loop when a key is missing, so that one more than the index of a missing key is enough,
-- and as many rounds as the threshold are enough where the keys are right. All other recursion is
-- structural. The options of type `int` are compared only, and are integers without a bound here; the
-- one loop that counts up to an option is that of `Init` over the unseal keys to test, which
-- Vault/Unseal/KeyLoop has with the wrap-around of a machine's `int`.
--
-- Not modelled: messages of errors beyond their text parts, logs, contexts, the parsing of the
-- command line, `Apply` of the options (which does nothing) and the vendored libraries. Go's panics at
-- an empty endpoint in pkg/kv/azure/oauth.go are an error value. A page iterator of Azure is the
-- finite list of pages that it goes through. The names of pages in hack/gendocs are ASCII.
pub mod Prelude
pub mod Text
pub mod Base64
pub mod Effect
pub mod Validation
pub mod Flags
pub mod Kv
pub mod Vault
pub mod Worker
pub mod Docs
pub mod Commands
pub mod Tests
