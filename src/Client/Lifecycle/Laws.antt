-- ===== src/Client/Lifecycle/Laws.antt =====
-- `NewUserClient` on every branch.
use vendor_specific_usbdrive.Base.{
  ℕ, suc, ◌+◌, ◌≡◌, Bool, true, false, Option, none, some, List, [], ◌∷◌, arith, ◌&&◌,
  if◌then◌else◌, is_some,
}
use vendor_specific_usbdrive.Kit.{Ref, KernReturn, success, is_success}
use vendor_specific_usbdrive.Client.State.{
  ClientIvars, Client, ClientEvent, System, ClientEnv, client_released, update,
}
use vendor_specific_usbdrive.Client.Lifecycle.{new_user_client}

-- A client object after its `init`.
abbrev pub is_initialised : System → Ref → Bool
is_initialised s u = elim (s.clients u) [ none ↦ false | some c ↦ is_some c.ivars ]

-- DriverKit's `Create`, as it is documented: on success there is a client, and if it is of our class
-- then it has been initialised.
pub record CreatesClients (env : ClientEnv) (s : System) : Type 0 where
  pub creates :
      (log : List ClientEvent) (this : Ref)
      → is_success (env.create log this).0 ≡ true
      → is_some (env.create log this).1 ≡ true
  pub initialises :
      (client : Option Ref) (u : Ref)
      → env.as_user_client client ≡ some u
      → is_initialised s u ≡ true

-- How many clients have been given back.
abbrev pub releases : List ClientEvent → ℕ
releases [] = 0
releases (client_released _ ∷ es) = suc (releases es)
releases (_ ∷ es) = releases es

-- 1 for a success.
abbrev pub one_if_success : KernReturn → ℕ
one_if_success ret = if is_success ret then 1 else 0

-- The clients, if `out` is attached to what the cast makes of `this`.
abbrev pub attached_to : ClientEnv → Ref → Option Ref → (Ref → Option Client) → Ref → Option Client
attached_to env this none clients = clients
attached_to env this (some u) clients =
    update clients u
      (record { ivars = some (record { input_interface = env.as_input_interface (some this) }) })

-- The end of `NewUserClient`.
pub record IsAccounted (env : ClientEnv) (this : Ref) (s : System) (ret : KernReturn)
    (out : Option Ref) (t : System) : Type 0 where
  pub balance :
      releases t.log + one_if_success ret
      ≡ releases s.log + one_if_success (env.create s.log this).0
  pub handed : is_success ret && is_some out ≡ is_success ret
  pub clients : t.clients ≡ attached_to env this (if is_success ret then out else none) s.clients
  pub interfaces : t.interfaces ≡ s.interfaces

module _ (env : ClientEnv) (this : Ref) (before : Option Ref) (s : System) where
  -- If DriverKit creates a client, the cast recognises it and the client is initialised, then the
  -- call succeeds, returns that client and attaches it to what the cast makes of this interface,
  -- and changes no other client and no interface.
  pub new_user_client-attaches :
      (c u : Ref) (v : ClientIvars)
      → env.create s.log this ≡ (success, some c)
      → env.as_user_client (some c) ≡ some u
      → s.clients u ≡ some (record { ivars = some v })
      → new_user_client env this before s
        ≡ some (
          (success, some u),
          record s {
            clients = update s.clients u (record {
              ivars = some (record { input_interface = env.as_input_interface (some this) });
            });
          },
        )
  unfolding new_user_client
  new_user_client-attaches c u v e f g = ground arith
