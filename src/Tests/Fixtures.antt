-- ===== src/Tests/Fixtures.antt =====
-- A controller and a system that answer every call, and an interface that is set up.
use vendor_specific_usbdrive.Base.{
  ℕ, refl, true, some, List, [], ◌∷◌, arith, length, replicate, ◌+◌, ◌==◌, if◌then◌else◌,
}
use vendor_specific_usbdrive.Kit.{
  success, UsbPipeData, zero_pipe_data, interrupt, in_direction, out_direction,
}
use vendor_specific_usbdrive.Input.State.{
  Ivars, Input, Env, max_input_report_size, max_output_report_size,
}
use vendor_specific_usbdrive.Input.Send.Laws.{HasOut}
use vendor_specific_usbdrive.Input.Session.Ready.{IsReady}

-- Endpoint 1 is the `IN` and endpoint 2 the `OUT` endpoint.
abbrev pub sample_env : Env
sample_env = record {
  io = λ log pipe bytes. (success, length bytes);
  async_io = λ log pipe. success;
  handle_report = λ log time buffer count. success;
  super_init = λ log. true;
  super_handle_start = λ log. true;
  super_stop = λ log. success;
  allocates = λ log. true;
  as_host_interface = λ provider. provider;
  open_interface = λ log i. success;
  copy_configuration_descriptor = λ log i. some 20;
  get_interface_descriptor = λ c i. some 21;
  copy_pipe = λ log i address old. (success, some (address + 30));
  create_io_buffer = λ log i size old. (success, some 40);
  endpoints = λ c d. 1 ∷ 2 ∷ [];
  endpoint_type = λ e. interrupt;
  endpoint_direction = λ e. if e == 1 then in_direction else out_direction;
  endpoint_address = λ e. e;
  interval_frames = λ speed d. 4;
  max_packet_size = λ speed d. 64;
  get_speed = λ log pipe old. (success, 2);
  map_buffer = λ log b. (success, some (replicate 64 0), 64);
  copy_properties = λ log. (success, some 50);
  dictionary_u64 = λ p key. elim key [ max_input_report_size ↦ 18 | max_output_report_size ↦ 5 ];
  create_action = λ log size old. (success, some 60);
}

abbrev pub in_pipe : UsbPipeData
in_pipe = record zero_pipe_data {
  pipe = some 31;
  memory = record { buffer = some 41; address = some (replicate 18 0); length = 18 };
}

abbrev pub out_pipe : UsbPipeData
out_pipe = record zero_pipe_data {
  pipe = some 32;
  memory = record { buffer = some 42; address = some (replicate 16 0); length = 16 };
}

abbrev pub ready_ivars : Ivars
ready_ivars = record {
  interface = some 7;
  configuration_descriptor = some 20;
  interface_descriptor = some 21;
  in_pipe = in_pipe;
  out_pipe = out_pipe;
  got_data_action = some 60;
  out_counter = 255;
  enabled = true;
}

abbrev pub ready_input : Input
ready_input = record { ivars = some ready_ivars; log = [] }

unfoldable pub ready-HasOut : HasOut ready_input ready_ivars 32 (replicate 16 0)
ready-HasOut = record { loaded = refl; piped = refl; mapped = refl; measured = refl }

unfoldable pub ready-IsReady : IsReady ready_input
ready-IsReady = record {
  v = ready_ivars;
  in_ref = 31;
  out_ref = 32;
  out_bytes = replicate 16 0;
  has_out = ready-HasOut;
  in_piped = refl;
  out_room = omega arith;
  byte = omega arith;
}

-- A button packet, with A and the left shoulder pressed, and a guide packet that wants an answer.
abbrev pub button_bytes : List ℕ
button_bytes =
    0x20 ∷ 0x00 ∷ 0x07 ∷ 0x0e ∷ 0x10 ∷ 0x10 ∷ 0xff ∷ 0x03 ∷ 0x00 ∷ 0x00 ∷ 0x00 ∷ 0x80 ∷ 0xff ∷ 0x7f
    ∷ 0x01 ∷ 0x00 ∷ 0x02 ∷ 0x00 ∷ []

abbrev pub guide_bytes : List ℕ
guide_bytes = 0x07 ∷ 0x30 ∷ 0x08 ∷ 0x02 ∷ 0x01 ∷ 0x00 ∷ []
