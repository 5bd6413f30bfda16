-- ===== src/Tests/Flags.antt =====
-- The theorem on the flags, at the defaults of the command.
use unsealer.Prelude.{◌≡◌, true, []}
use unsealer.Flags.{register, all_distinct}
use unsealer.Worker.Options.{WorkerOptions}
use unsealer.Worker.Defaults.{new_worker_options, new_azure_options}
use unsealer.Worker.Flags.{worker_flags}
use unsealer.Worker.FlagNames.{register-worker_flags}

abbrev defaults : WorkerOptions
defaults = new_worker_options (λ name. [])

register-worker_flags_example :
    (all_distinct (worker_flags defaults) ≡ true)
    × (register (worker_flags defaults) defaults ≡ defaults)
unfolding new_worker_options new_azure_options
register-worker_flags_example = register-worker_flags defaults
