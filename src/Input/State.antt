-- ===== src/Input/State.antt =====
-- The stored variables of `XboxOneInputInterface`, what it calls of the frameworks, and the reads
-- and writes that its functions are made of.
use vendor_specific_usbdrive.Base.{ℕ, Bool, Option, none, some, List, ◌∷◌, M}
use vendor_specific_usbdrive.Kit.{Ref, KernReturn, UsbPipeData, EndpointType, EndpointDirection}

-- `XboxOneInputInterface_IVars`.
pub record Ivars : Type 0 where
  pub interface : Option Ref
  pub configuration_descriptor : Option Ref
  pub interface_descriptor : Option Ref
  pub in_pipe : UsbPipeData
  pub out_pipe : UsbPipeData
  pub got_data_action : Option Ref
  pub out_counter : ℕ
  pub enabled : Bool

-- The objects whose references the driver holds or passes through its hands.
pub data Resource : Type 0 where
  usb_interface configuration : Resource
  in_endpoint out_endpoint in_buffer out_buffer action properties self provider : Resource

-- The functions of the superclass.
pub data Super : Type 0 where
  super_init super_start super_handle_start super_stop super_free : Super

-- What the driver has done to its environment.
pub data Event : Type 0 where
  -- `IO` on the pipe, with the bytes that stand in the buffer.
  transmit : (pipe : Ref) → List ℕ → Event
  -- `AsyncIO` on the pipe: its buffer, the length and the action.
  request : (pipe : Ref) → Option Ref → ℕ → Option Ref → Event
  -- `handleReport` of `IOUserHIDDevice`: the time stamp, the buffer and the count.
  report : ℕ → Option Ref → ℕ → Event
  -- A reference taken, by a `Copy…`, a `Create…` or `retain`, and one given back.
  acquire : Resource → Ref → Event
  release : Resource → Ref → Event
  -- `Open` of the provider, a call of the superclass, `Cancel` of the action.
  opened : Ref → Event
  called : Super → Event
  cancelled : Ref → Event

-- An interface object; `ivars` is null before `init` and after `free`. The latest event is first.
pub record Input : Type 0 where
  pub ivars : Option Ivars
  pub log : List Event

-- The keys of the properties that `SetupPipes` reads.
pub data PropertyKey : Type 0 where
  max_input_report_size max_output_report_size : PropertyKey

-- The frameworks. They answer a call by its arguments and by what has happened so far; a call that
-- fills in a variable of the caller answers with the value that it leaves there.
pub record Env : Type 0 where
  -- `IOUSBHostPipe::IO`: the result and the number of bytes transferred.
  pub io : List Event → Ref → List ℕ → KernReturn × ℕ
  -- `IOUSBHostPipe::AsyncIO`.
  pub async_io : List Event → Ref → KernReturn
  -- `IOUserHIDDevice::handleReport`.
  pub handle_report : List Event → ℕ → Option Ref → ℕ → KernReturn
  -- The superclass: `init`, `handleStart` and `Stop`.
  pub super_init : List Event → Bool
  pub super_handle_start : List Event → Bool
  pub super_stop : List Event → KernReturn
  -- Whether `IONewZero` finds memory.
  pub allocates : List Event → Bool
  -- `OSDynamicCast(IOUSBHostInterface, …)`.
  pub as_host_interface : Option Ref → Option Ref
  -- `IOUSBHostInterface`.
  pub open_interface : List Event → Ref → KernReturn
  pub copy_configuration_descriptor : List Event → Ref → Option Ref
  pub get_interface_descriptor : Ref → Ref → Option Ref
  pub copy_pipe : List Event → Ref → ℕ → Option Ref → KernReturn × Option Ref
  pub create_io_buffer : List Event → Ref → ℕ → Option Ref → KernReturn × Option Ref
  -- The endpoint descriptors, in the order in which `IOUSBGetNextEndpointDescriptor` gives them.
  pub endpoints : Option Ref → Option Ref → List Ref
  pub endpoint_type : Ref → EndpointType
  pub endpoint_direction : Ref → EndpointDirection
  pub endpoint_address : Ref → ℕ
  pub interval_frames : ℕ → Option Ref → ℕ
  pub max_packet_size : ℕ → Option Ref → ℕ
  -- `IOUSBHostPipe::GetSpeed`.
  pub get_speed : List Event → Ref → ℕ → KernReturn × ℕ
  -- `IOMemoryDescriptor::Map`: the memory at the address, and the length.
  pub map_buffer : List Event → Ref → KernReturn × Option (List ℕ) × ℕ
  pub copy_properties : List Event → KernReturn × Option Ref
  pub dictionary_u64 : Option Ref → PropertyKey → ℕ
  -- `CreateActionGotData`.
  pub create_action : List Event → ℕ → Option Ref → KernReturn × Option Ref

-- The `IN` and the `OUT` pipe: what the `usb_pipe_data*` of `SetupPipe` points to.
pub data Side : Type 0 where
  in_side out_side : Side

abbrev pub pipe_of : Side → Ivars → UsbPipeData
pipe_of in_side v = v.in_pipe
pipe_of out_side v = v.out_pipe

abbrev pub with_pipe : Side → UsbPipeData → Ivars → Ivars
with_pipe in_side p v = record v { in_pipe = p }
with_pipe out_side p v = record v { out_pipe = p }

abbrev pub endpoint_of : Side → Resource
endpoint_of in_side = in_endpoint
endpoint_of out_side = out_endpoint

abbrev pub buffer_of : Side → Resource
buffer_of in_side = in_buffer
buffer_of out_side = out_buffer

abbrev pub load_ivars : M Input Ivars
load_ivars s = elim s.ivars [ none ↦ none | some v ↦ some (v, s) ]

abbrev pub store_ivars : Ivars → M Input (Unit {0})
store_ivars v s = some (tt, record s { ivars = some v })

abbrev pub emit : Event → M Input (Unit {0})
emit e s = some (tt, record s { log = e ∷ s.log })

-- A question to the frameworks about the history.
abbrev pub ask : {A : Type 0} → (List Event → A) → M Input A
ask f s = some (f s.log, s)

abbrev pub change_pipe : Side → (UsbPipeData → UsbPipeData) → M Input (Unit {0})
change_pipe side f s = elim s.ivars [
  | none ↦ none
  | some v ↦ some (tt, record s { ivars = some (with_pipe side (f (pipe_of side v)) v) })
]

-- The event of a reference that may be null: a null pointer is neither taken nor released.
abbrev pub emit_some : (Ref → Event) → Option Ref → M Input (Unit {0})
emit_some f none s = some (tt, s)
emit_some f (some r) s = emit (f r) s
