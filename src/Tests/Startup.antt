-- ===== src/Tests/Startup.antt =====
-- Startup with devices that answer every call, or that do not.
use vendor_specific_usbdrive.Base.{
  ◌+◌, ◌≡◌, ◌≤◌, refl, Bool, true, false, none, some, [], ◌∷◌, arith, replicate, if◌then◌else◌,
  pure, Ensures,
}
use vendor_specific_usbdrive.Kit.{success, error}
use vendor_specific_usbdrive.Input.State.{
  Ivars, Input, Env, called, super_init, super_stop, super_free, acquire, in_buffer, out_buffer,
}
use vendor_specific_usbdrive.Input.Session.{holds, drops}
use vendor_specific_usbdrive.Input.Startup.{zero_ivars, init, start, init_pipes, handle_start}
use vendor_specific_usbdrive.Input.Setup.{
  setup_both, setup_out, setup_pipe, measure_pipe, setup_memory, create_buffer, map_created,
  map_memory,
}
use vendor_specific_usbdrive.Input.Shutdown.{stop, free}
use vendor_specific_usbdrive.Input.Receive.{set_enable}
use vendor_specific_usbdrive.Input.Startup.Unmatched.{free-start-init}
use vendor_specific_usbdrive.Input.Startup.Pipes.{
  vars, IsDocumented, IsKept, Piped, init_pipes-Piped,
}
use vendor_specific_usbdrive.Input.Startup.ReportSize.{setup_both-sizes}
use vendor_specific_usbdrive.Input.Startup.Outcome.{
  IsListening, handle_start-IsListening, free-handle_start,
}
use vendor_specific_usbdrive.Tests.Fixtures.{
  sample_env, in_pipe, out_pipe, ready_ivars, ready_input,
}

pub sample-IsDocumented : IsDocumented sample_env
sample-IsDocumented = record {
  creates = λ log i size old h. refl;
  maps = λ log b h. refl;
  measures = λ log b h. refl;
}

abbrev pub provided_ivars : Ivars
provided_ivars = record zero_ivars { interface = some 7; enabled = true }

abbrev pub provided_input : Input
provided_input = record { ivars = some provided_ivars; log = [] }

handle_start-IsListening_example :
    (b : Bool) × (t : Input) × (handle_start sample_env provided_input ≡ some (b, t))
    × (b ≡ true → 9 ≤ (vars t).out_pipe.memory.length → IsListening provided_input t)
handle_start-IsListening_example =
    handle_start-IsListening sample_env sample-IsDocumented provided_input provided_ivars 7 refl
      refl (omega arith)

-- A device without endpoints.
abbrev bare_env : Env
bare_env = record sample_env { endpoints = λ c d. [] }

bare-IsDocumented : IsDocumented bare_env
bare-IsDocumented = record {
  creates = λ log i size old h. refl;
  maps = λ log b h. refl;
  measures = λ log b h. refl;
}

free-handle_start_example :
    (b : Bool) × (t : Input) × (u : Input) × (handle_start bare_env provided_input ≡ some (b, t))
    × (free t ≡ some (tt, u))
    × (drops u.log ≡ drops t.log + 1)
    × (holds u.log ≡ 0 + (if b then 1 else 0))
free-handle_start_example =
    free-handle_start bare_env bare-IsDocumented provided_input provided_ivars 7 refl refl

provided-IsKept : IsKept 7 0 true 0 0 0 provided_input
provided-IsKept = ground arith

init_pipes-Piped_example :
    Ensures (Piped sample_env 7 0 true 0 0 0) (init_pipes sample_env provided_input)
init_pipes-Piped_example = init_pipes-Piped sample_env 7 0 true 0 0 0 provided_input provided-IsKept

abbrev set_up_input : Input
set_up_input = record {
  ivars = some (record ready_ivars {
    in_pipe = record in_pipe {
      speed = 2;
      interval = 4;
      report_size = 5;
      max_packet_size = 64;
      memory = record { buffer = some 40; address = some (replicate 64 0); length = 64 };
    };
    out_pipe = record out_pipe {
      speed = 2;
      interval = 4;
      max_packet_size = 64;
      memory = record { buffer = some 40; address = some (replicate 64 0); length = 64 };
    };
  });
  log = acquire out_buffer 40 ∷ acquire in_buffer 40 ∷ [];
}

sets_up_both : setup_both sample_env (some 50) ready_input ≡ some (true, set_up_input)
unfolding setup_both setup_out setup_pipe measure_pipe setup_memory create_buffer map_created
    map_memory
sets_up_both = refl

setup_both-sizes_example :
    ((vars set_up_input).in_pipe.report_size ≡ 5) × ((vars set_up_input).out_pipe.report_size ≡ 0)
setup_both-sizes_example =
    setup_both-sizes sample_env (some 50) ready_input set_up_input sets_up_both

abbrev fresh_input : Input
fresh_input = record { ivars = none; log = [] }

abbrev initialised_input : Input
initialised_input = record {
  ivars = some (record zero_ivars { enabled = true });
  log = called super_init ∷ [];
}

init_blank : init sample_env fresh_input ≡ some (true, initialised_input)
unfolding init
init_blank = refl

-- The provider is null.
free-start-init_example :
    (u : Input) × (w : Input) × (x : Input) × (start sample_env (pure error) none initialised_input
      ≡ some (success, u))
    × (stop sample_env 3 7 (set_enable false u) ≡ some (success, w))
    × (free w ≡ some (tt, x))
    × (x.log ≡ called super_free ∷ called super_stop ∷ called super_init ∷ [])
free-start-init_example =
    free-start-init sample_env (pure error) none 3 7 false fresh_input initialised_input init_blank
      refl
