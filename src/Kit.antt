-- ===== src/Kit.antt =====
-- What the driver's parts share of DriverKit and USBDriverKit: result codes, pointers to objects,
-- and Shared/USBPipeData.h.
use vendor_specific_usbdrive.Base.{ℕ, Bool, true, false, Option, none, List}

-- A pointer to an object of the framework, or of another part of the driver.
abbrev pub Ref : Type 0
Ref = ℕ

-- `kern_return_t`: the codes that the driver names, and the rest.
pub data KernReturn : Type 0 where
  success error bad_argument not_found : KernReturn
  other : ℕ → KernReturn

abbrev pub is_success : KernReturn → Bool
is_success success = true
is_success _ = false

-- `buffer_memory_descriptor`. `address` is the memory that is mapped there, from its first byte.
pub record BufferMemoryDescriptor : Type 0 where
  pub buffer : Option Ref
  pub address : Option (List ℕ)
  pub length : ℕ

-- `usb_pipe_data`.
pub record UsbPipeData : Type 0 where
  pub pipe : Option Ref
  pub speed : ℕ
  pub interval : ℕ
  pub report_size : ℕ
  pub max_packet_size : ℕ
  pub descriptor : Option Ref
  pub memory : BufferMemoryDescriptor

-- What `IONewZero` leaves of one.
abbrev pub zero_pipe_data : UsbPipeData
zero_pipe_data = record {
  pipe = none;
  speed = 0;
  interval = 0;
  report_size = 0;
  max_packet_size = 0;
  descriptor = none;
  memory = record { buffer = none; address = none; length = 0 };
}

-- `IOUSBGetEndpointType` and `IOUSBGetEndpointDirection`.
pub data EndpointType : Type 0 where
  control isochronous bulk interrupt : EndpointType

pub data EndpointDirection : Type 0 where
  out_direction in_direction unknown_direction : EndpointDirection

abbrev pub is_interrupt : EndpointType → Bool
is_interrupt interrupt = true
is_interrupt _ = false
