-- ===== src/Commands.antt =====
-- The commands of the program: pkg/cmds and cmd/vault-unsealer, over the calls that they make of
-- github.com/spf13/cobra, gomodules.xyz/logs and kmodules.xyz/client-go.
use unsealer.Prelude.{Bool, true, List, [], ◌∷◌}
use unsealer.Text.{Text, text}
use unsealer.Effect.{Error, Result, ok, err, Call}
use unsealer.Flags.{Flag, bool_var, register}
use unsealer.Vault.Connection.{TlsConfig, Libraries}
use unsealer.Vault.Unseal.Defs.{Unsealer}
use unsealer.Worker.Options.{WorkerOptions}
use unsealer.Worker.Service.{Backends}
use unsealer.Worker.Defaults.{new_worker_options}
use unsealer.Worker.Flags.{worker_flags}
use unsealer.Worker.Run.{run_command}

-- The variables that the linker sets.
pub record BuildInfo : Type 0 where
  pub version : Text
  pub version_strategy : Text
  pub git_tag : Text
  pub git_branch : Text
  pub commit_hash : Text
  pub commit_timestamp : Text
  pub go_version : Text
  pub compiler : Text
  pub platform : Text

-- The variable of gomodules.xyz/x/version that `init` assigns, field by field.
unfoldable pub init_version : BuildInfo → BuildInfo → BuildInfo
init_version build v = record v {
  version = build.version;
  version_strategy = build.version_strategy;
  git_tag = build.git_tag;
  git_branch = build.git_branch;
  commit_hash = build.commit_hash;
  commit_timestamp = build.commit_timestamp;
  go_version = build.go_version;
  compiler = build.compiler;
  platform = build.platform;
}

-- What the program sets of a `cobra.Command`: a command is run with the options that its flags have
-- been parsed into, and acts on a state of type `S`.
pub record Command (S O A : Type 0) : Type 0 where
  pub use_line : Text
  pub short : Text
  pub disable_auto_gen_tag : Bool
  pub flags : List (Flag O)
  pub options : O
  pub pre_run : S → S
  pub run_e : O → Result A

-- The root has no run of its own; its flag is bound to a variable of kmodules.xyz/client-go.
pub record RootCommand (S C D : Type 0) : Type 0 where
  pub use_line : Text
  pub short : Text
  pub disable_auto_gen_tag : Bool
  pub persistent_pre_run : S → S
  pub persistent_flags : List (Flag Bool)
  pub version_cmd : C
  pub run_cmd : D

-- `NewCmdRun`, up to the loop of the worker. The options are those of `NewWorkerOptions` after the
-- registration of the flags.
unfoldable pub new_cmd_run :
    {S K V : Type 0}
    → Backends K
    → Libraries V
    → TlsConfig
    → (List Error → Error)
    → (Text → Text)
    → (Text → S → S)
    → BuildInfo
    → Command S WorkerOptions (Unsealer K V)
unfolding new_worker_options worker_flags run_command
new_cmd_run b lib c aggregate getenv send_periodic_analytics v =
    let opts = new_worker_options getenv in
    record {
      use_line = text "run";
      short = text "Launch Vault unsealer";
      disable_auto_gen_tag = true;
      flags = worker_flags opts;
      options = register (worker_flags opts) opts;
      pre_run = send_periodic_analytics v.version;
      run_e = run_command b lib c aggregate;
    }

-- `NewRootCmd`, with the two commands that it adds.
unfoldable pub new_root_cmd : {S C D : Type 0} → Bool → C → D → RootCommand S C D
new_root_cmd enable_analytics version_cmd run_cmd = record {
  use_line = text "vault-unsealer";
  short = text "Automates initialisation and unsealing of Hashicorp Vault";
  disable_auto_gen_tag = true;
  persistent_pre_run = λ s. s;
  persistent_flags = bool_var (λ b p. b) (text "enable-analytics") enable_analytics ∷ [];
  version_cmd = version_cmd;
  run_cmd = run_cmd;
}

-- `klog.Fatal` ends the program, without the deferred flush.
pub data Ending (S : Type 0) : Type 0 where
  finished : S → Ending S
  died : Error → S → Ending S

abbrev pub end_of : {S : Type 0} → (S → S) → Result Unit × S → Ending S
end_of flush_logs (ok done, s) = finished (flush_logs s)
end_of flush_logs (err e, s) = died e s

-- `main` of cmd/vault-unsealer, for a root command of type `R`.
unfoldable pub main : {S R : Type 0} → R → (R → S → S) → (R → Call S Unit) → (S → S) → S → Ending S
main root_cmd init_logs execute flush_logs s =
    end_of flush_logs (execute root_cmd (init_logs root_cmd s))
