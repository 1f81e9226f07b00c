-- ===== src/Tests/Start.antt =====
-- A whole start, and a run of packets after it.
use vendor_specific_usbdrive.Input.Service.{outputs_of}
use vendor_specific_usbdrive.Input.Service.Due.{told}
use vendor_specific_usbdrive.Input.Startup.Whole.{StartsByHandle, new_ivars, run-start-init}
use vendor_specific_usbdrive.Base.{
  List, none, M, pure, ◌>>=◌, if◌then◌else◌, ◌≡◌, ◌+◌, refl, true, some, [], ◌∷◌, ◌++◌, arith,
  replicate,
}
use vendor_specific_usbdrive.Kit.{KernReturn, success, error, UsbPipeData}
use vendor_specific_usbdrive.Input.State.{
  Input, acquire, release, called, request, transmit, super_handle_start, Event, opened, super_init,
  usb_interface, configuration, in_endpoint, out_endpoint, in_buffer, out_buffer, action,
  properties,
}
use vendor_specific_usbdrive.Input.Send.{send_interrupt_data}
use vendor_specific_usbdrive.Input.Receive.{request_async_interrupt_data}
use vendor_specific_usbdrive.Input.Session.{run, requests}
use vendor_specific_usbdrive.Input.Session.Ready.{Progress}
use vendor_specific_usbdrive.Input.Startup.{
  init, start, handle_start, call_super_handle_start, init_descriptors, init_pipes, pipes_loop,
  claim_endpoint, copy_pipe, create_action, begin_communication, retain_interface,
}
use vendor_specific_usbdrive.Input.Setup.{
  setup_pipes, setup_both, setup_out, setup_pipe, measure_pipe, setup_memory, create_buffer,
  map_created, map_memory,
}
use vendor_specific_usbdrive.Input.Startup.Run.{run-handle_start}
use vendor_specific_usbdrive.Tests.Fixtures.{sample_env}
use vendor_specific_usbdrive.Tests.Startup.{sample-IsDocumented, provided_ivars, provided_input}
use vendor_specific_usbdrive.Tests.Input.{signals}

abbrev pub started_in_pipe : UsbPipeData
started_in_pipe = record {
  pipe = some 31;
  speed = 2;
  interval = 4;
  report_size = 5;
  max_packet_size = 64;
  descriptor = some 1;
  memory = record { buffer = some 40; address = some (replicate 64 0); length = 64 };
}

-- Started behind a log.
abbrev pub started_after : List Event → Input
started_after log = record {
  ivars = some (record {
    interface = some 7;
    configuration_descriptor = some 20;
    interface_descriptor = some 21;
    in_pipe = started_in_pipe;
    out_pipe = record started_in_pipe {
      pipe = some 32;
      report_size = 0;
      descriptor = some 2;
      memory = record {
        buffer = some 40;
        address = some ((0x05 ∷ 0x20 ∷ 0x01 ∷ 0x0f ∷ 0x06 ∷ []) ++ replicate 59 0);
        length = 64;
      };
    };
    got_data_action = some 60;
    out_counter = 2;
    enabled = true;
  });
  log =
      acquire usb_interface 7
      ∷ request 31 (some 40) 64 (some 60)
      ∷ transmit 32 (0x05 ∷ 0x20 ∷ 0x01 ∷ 0x0f ∷ 0x06 ∷ [])
      ∷ transmit 32 (0x05 ∷ 0x20 ∷ 0x00 ∷ 0x01 ∷ 0x00 ∷ [])
      ∷ acquire action 60
      ∷ release properties 50
      ∷ acquire out_buffer 40
      ∷ acquire in_buffer 40
      ∷ acquire properties 50
      ∷ acquire out_endpoint 32
      ∷ acquire in_endpoint 31
      ∷ acquire configuration 20
      ∷ called super_handle_start
      ∷ log;
}

abbrev pub started_input : Input
started_input = started_after []

pub sample_starts : handle_start sample_env provided_input ≡ some (true, started_input)
unfolding handle_start call_super_handle_start init_descriptors init_pipes pipes_loop claim_endpoint
    copy_pipe setup_pipes setup_both setup_out setup_pipe measure_pipe setup_memory create_buffer
    map_created map_memory create_action begin_communication retain_interface send_interrupt_data
    request_async_interrupt_data
sample_starts = refl

run-handle_start_example :
    (u : Input) × (run sample_env signals started_input ≡ some (tt, u))
    × Progress started_input u 3
    × (requests u.log ≡ 0 + 3 + 1)
run-handle_start_example =
    run-handle_start sample_env sample-IsDocumented provided_input provided_ivars 7 refl refl
      (omega arith) started_input sample_starts (omega arith) signals (omega arith)

abbrev sample_super_start : M Input KernReturn
sample_super_start = handle_start sample_env >>= λ b. pure (if b then success else error)

sample-StartsByHandle : StartsByHandle sample_env sample_super_start
sample-StartsByHandle = record { failure = error; fails = refl; starts = λ s. refl }

abbrev blank : Input
blank = record { ivars = none; log = [] }

abbrev initialised : Input
initialised = record { ivars = some new_ivars; log = called super_init ∷ [] }

sample_inits : init sample_env blank ≡ some (true, initialised)
unfolding init
sample_inits = refl

sample_starts_whole :
    start sample_env sample_super_start (some 7) initialised
    ≡ some (success, started_after (opened 7 ∷ called super_init ∷ []))
unfolding start handle_start call_super_handle_start init_descriptors init_pipes pipes_loop
    claim_endpoint copy_pipe setup_pipes setup_both setup_out setup_pipe measure_pipe setup_memory
    create_buffer map_created map_memory create_action begin_communication retain_interface
    send_interrupt_data request_async_interrupt_data
sample_starts_whole = refl

run-start-init_example :
    (u : Input) × (run sample_env signals (started_after (opened 7 ∷ called super_init ∷ []))
      ≡ some (tt, u))
    × (told (outputs_of u.log) ≡ (1002, 6) ∷ (1000, 18) ∷ [])
    × (requests u.log ≡ 0 + 3 + 1)
run-start-init_example =
    run-start-init sample_env sample_super_start sample-IsDocumented sample-StartsByHandle (some 7)
      7 refl blank initialised (started_after (opened 7 ∷ called super_init ∷ [])) sample_inits
      sample_starts_whole (omega arith) signals (omega arith)
