-- ===== src/Client/State.antt =====
-- The objects that the user client works on, and the frameworks' part of it.
use vendor_specific_usbdrive.Base.{ℕ, Bool, Option, none, some, List, ◌∷◌, ◌==◌, if◌then◌else◌, M}
use vendor_specific_usbdrive.Kit.{Ref, KernReturn}
use vendor_specific_usbdrive.Input.State.{Input}

-- `XboxOneUserClient_IVars`.
pub record ClientIvars : Type 0 where
  pub input_interface : Option Ref

-- A user client object; `ivars` is null before `init` and after `free`.
pub record Client : Type 0 where
  pub ivars : Option ClientIvars

-- What the user clients do to their environment.
pub data ClientEvent : Type 0 where
  client_released : Ref → ClientEvent
  service_registered : Ref → ClientEvent
  super_started super_stopped super_freed : Ref → ClientEvent

-- The live objects of the driver, by their addresses.
pub record System : Type 0 where
  pub clients : Ref → Option Client
  pub interfaces : Ref → Option Input
  pub log : List ClientEvent

abbrev pub update : {A : Type 0} → (Ref → Option A) → Ref → A → Ref → Option A
update f r a q = if r == q then some a else f q

-- A call through a pointer to an object that is not there is undefined behaviour.
abbrev pub load_client : Ref → M System Client
load_client r s = elim (s.clients r) [ none ↦ none | some c ↦ some (c, s) ]

abbrev pub load_client_ivars : Ref → M System ClientIvars
load_client_ivars r s = elim (s.clients r) [
  | none ↦ none
  | some c ↦ elim c.ivars [ none ↦ none | some v ↦ some (v, s) ]
]

abbrev pub store_client_ivars : Ref → Option ClientIvars → M System (Unit {0})
store_client_ivars r v s =
    some (tt, record s { clients = update s.clients r (record { ivars = v }) })

abbrev pub load_interface : Ref → M System Input
load_interface r s = elim (s.interfaces r) [ none ↦ none | some i ↦ some (i, s) ]

abbrev pub store_interface : Ref → Input → M System (Unit {0})
store_interface r i s = some (tt, record s { interfaces = update s.interfaces r i })

abbrev pub note : ClientEvent → M System (Unit {0})
note e s = some (tt, record s { log = e ∷ s.log })

abbrev pub ask_log : {A : Type 0} → (List ClientEvent → A) → M System A
ask_log f s = some (f s.log, s)

-- `IOUserClientMethodArguments`: the scalars, with their counts as the lengths.
pub record Arguments : Type 0 where
  pub scalar_input : List ℕ
  pub scalar_output : List ℕ
  pub structure_input_size : ℕ
  pub structure_output_size : ℕ
  pub has_completion : Bool

-- The functions that a dispatch entry can name.
pub data Method : Type 0 where
  licensing_method : Method

-- `IOUserClientMethodDispatch`.
pub record MethodDispatch : Type 0 where
  pub function : Option Method
  pub check_completion_exists : Bool
  pub check_scalar_input_count : ℕ
  pub check_structure_input_size : ℕ
  pub check_scalar_output_count : ℕ
  pub check_structure_output_size : ℕ

-- DriverKit, as far as the user clients and their creation call it.
pub record ClientEnv : Type 0 where
  -- `super::init`, `IONewZero`, `super::Start`, `RegisterService` and `super::Stop`.
  pub super_init : List ClientEvent → Bool
  pub allocates : List ClientEvent → Bool
  pub super_start : List ClientEvent → Ref → KernReturn
  pub register_service : List ClientEvent → Ref → KernReturn
  pub super_stop : List ClientEvent → Ref → KernReturn
  -- `OSDynamicCast` to `XboxOneInputInterface` and to `XboxOneUserClient`.
  pub as_input_interface : Option Ref → Option Ref
  pub as_user_client : Option Ref → Option Ref
  -- `Create(this, "UserClientProperties", &client)`: the result and the client.
  pub create : List ClientEvent → Ref → KernReturn × Option Ref
  -- `super::ExternalMethod`.
  pub super_external_method :
      ℕ → Arguments → Option MethodDispatch → Option Ref → ℕ → M System (KernReturn × Arguments)
