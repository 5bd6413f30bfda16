-- ===== src/Tests/Stuck.antt =====
-- The inner loop of the worker, at an empty key store in memory.
use unsealer.Prelude.{◌≡◌, refl, some, []}
use unsealer.Prelude.Int.{pos}
use unsealer.Worker.Loop.{configuring, State, step, configured}
use unsealer.Worker.Steps.{stay, next}
use unsealer.Worker.Stuck.{configures_forever}
use unsealer.Tests.Store.{Memory, held, memory-KvContract}
use unsealer.Tests.Server.{Server}
use unsealer.Tests.Unseal.{u, start}
use unsealer.Tests.Worker.{worker_options}

abbrev no_root_token : State Memory Server
no_root_token = record { phase = configuring; period = pos 10000000000; slept = []; world = start }

abbrev after_failure : State Memory Server
after_failure = configured u worker_options no_root_token

one_failure : step u worker_options 0 no_root_token ≡ some after_failure
unfolding step
one_failure = refl

configures_forever_example : (after_failure.phase ≡ configuring) × (after_failure.slept ≡ [])
configures_forever_example =
    configures_forever u worker_options held memory-KvContract no_root_token after_failure refl refl
      (next 0 no_root_token after_failure after_failure one_failure (stay after_failure))
