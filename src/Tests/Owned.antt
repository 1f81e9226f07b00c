-- ===== src/Tests/Owned.antt =====
-- A start that fails late, a start that succeeds with some packets after it, and what `free` gives
-- back after them.
use vendor_specific_usbdrive.Base.{◌+◌, ◌≡◌, refl, Bool, some, arith}
use vendor_specific_usbdrive.Kit.{error}
use vendor_specific_usbdrive.Input.State.{Input, Env, out_buffer, action}
use vendor_specific_usbdrive.Input.Startup.{handle_start}
use vendor_specific_usbdrive.Input.Shutdown.{free}
use vendor_specific_usbdrive.Input.Startup.Pipes.{IsDocumented}
use vendor_specific_usbdrive.Input.Startup.Owned.{takes, gives, LeavesPointers}
use vendor_specific_usbdrive.Input.Startup.Owned.Release.{IsEmpty, free-handle_start-Balanced}
use vendor_specific_usbdrive.Input.Session.{run}
use vendor_specific_usbdrive.Input.Startup.Owned.Service.{free-run-Balanced}
use vendor_specific_usbdrive.Tests.Input.{signals}
use vendor_specific_usbdrive.Tests.Start.{started_input, sample_starts}
use vendor_specific_usbdrive.Tests.Fixtures.{sample_env}
use vendor_specific_usbdrive.Tests.Startup.{sample-IsDocumented, provided_ivars, provided_input}

-- The action cannot be created.
abbrev actionless_env : Env
actionless_env = record sample_env { create_action = λ log size old. (error, old) }

actionless-IsDocumented : IsDocumented actionless_env
actionless-IsDocumented = record {
  creates = λ log i size old h. refl;
  maps = λ log b h. refl;
  measures = λ log b h. refl;
}

actionless-LeavesPointers : LeavesPointers actionless_env
actionless-LeavesPointers = record {
  buffers = λ log i size old h. absurd (ground (arith, h));
  actions = λ log size old h. refl;
}

provided-IsEmpty : IsEmpty provided_ivars
provided-IsEmpty = record {
  no_configuration = refl;
  no_in_buffer = refl;
  no_out_buffer = refl;
  no_action = refl;
}

free-handle_start-Balanced_example :
    (b : Bool) × (t : Input) × (u : Input) × (handle_start actionless_env provided_input
      ≡ some (b, t))
    × (free t ≡ some (tt, u))
    × (takes out_buffer 40 u.log + 0 ≡ gives out_buffer 40 u.log + 0)
free-handle_start-Balanced_example =
    free-handle_start-Balanced actionless_env actionless-IsDocumented actionless-LeavesPointers
      provided_input provided_ivars 7 refl refl provided-IsEmpty out_buffer 40 refl

sample-LeavesPointers : LeavesPointers sample_env
sample-LeavesPointers = record {
  buffers = λ log i size old h. absurd (ground (arith, h));
  actions = λ log size old h. absurd (ground (arith, h));
}

free-run-Balanced_example :
    (u : Input) × (w : Input) × (run sample_env signals started_input ≡ some (tt, u))
    × (free u ≡ some (tt, w))
    × (takes action 60 w.log + 0 ≡ gives action 60 w.log + 0)
free-run-Balanced_example =
    free-run-Balanced sample_env sample-IsDocumented sample-LeavesPointers provided_input
      provided_ivars 7 refl refl provided-IsEmpty action 60 refl (omega arith) started_input
      sample_starts (omega arith) signals (omega arith)
