-- ===== src/Client/Licensing/Safety.antt =====
-- What a call of the user client can do, whatever its arguments are.
use vendor_specific_usbdrive.Base.{
  ℕ, zero, suc, ◌≡◌, ◌<◌, refl, Bool, true, false, Option, none, some, List, [], ◌∷◌, arith, length,
  ◌==◌, ◌&&◌, if◌then◌else◌, is_some, Ensures, Ensures-some, Bool-cases, Option-cases, inl, inr,
}
use vendor_specific_usbdrive.Kit.{Ref, KernReturn, is_success}
use vendor_specific_usbdrive.Input.State.{Input}
use vendor_specific_usbdrive.Input.Receive.{set_enable}
use vendor_specific_usbdrive.Client.State.{System, ClientEnv, Arguments, MethodDispatch}
use vendor_specific_usbdrive.Client.Licensing.{
  licensing_dispatch, external_method, static_handle_licensing,
}
use vendor_specific_usbdrive.Client.Licensing.Laws.{
  counts_match, ChecksArguments, truth, attached, external_method-static,
}

-- The first number of the input.
abbrev pub request_of : Arguments → ℕ
request_of a = elim a.scalar_input [ [] ↦ 0 | n ∷ _ ↦ n ]

abbrev pub is_interface : Option Ref → Ref → Bool
is_interface none q = false
is_interface (some r) q = r == q

abbrev pub enabled_as : Bool → Option Input → Option Input
enabled_as on none = none
enabled_as on (some i) = some (set_enable on i)

-- The interface is there, if the client is attached to one.
abbrev pub is_live : System → Option Ref → Bool
is_live s none = true
is_live s (some r) = is_some (s.interfaces r)

-- How a call on a client that is attached to `target` ends.
pub record IsConfined (selector : ℕ) (a : Arguments) (target : Option Ref) (s : System)
    (ret : KernReturn) (b : Arguments) (t : System) : Type 0 where
  pub answered : is_success ret ≡ (selector == 1 && counts_match licensing_dispatch a)
  pub inputs : b.scalar_input ≡ a.scalar_input
  pub room : length b.scalar_output ≡ length a.scalar_output
  pub clients : t.clients ≡ s.clients
  pub interfaces :
      (q : Ref)
      → t.interfaces q ≡ (
          if is_success ret && is_interface target q
          then enabled_as (truth (request_of a)) (s.interfaces q)
          else s.interfaces q)

singleton : (xs : List ℕ) → (length xs == 1) ≡ true → (n : ℕ) × (xs ≡ n ∷ [])
singleton [] e = ground (arith, e)
singleton (n ∷ []) e = (n, refl)
singleton (n ∷ m ∷ xs) e = absurd (ground (arith, e))

module _ (env : ClientEnv) (this : Ref) (dispatch : Option MethodDispatch) (reference : ℕ)
    (checks : ChecksArguments env) (s : System) (target : Option Ref)
    (attaches : s.clients this ≡ some (attached target)) where
  abbrev Confined : ℕ → Arguments → KernReturn × Arguments → System → Type 0
  Confined selector a (ret, b) = IsConfined selector a target s ret b

  refused :
      (a : Arguments)
      → counts_match licensing_dispatch a ≡ false
      → Ensures (Confined 1 a) (external_method env this 1 a dispatch none reference s)
  unfolding external_method
  refused a m = rw (checks.refuses 1 a (some this) reference s m) (record {
    answered = ground (arith, m);
    inputs = refl;
    room = refl;
    clients = refl;
    interfaces = λ q. refl;
  })

  -- The method on a client that is attached to no interface, and to a live one.
  detached :
      (a : Arguments) (n m : ℕ)
      → counts_match licensing_dispatch a ≡ true
      → a.scalar_input ≡ n ∷ []
      → a.scalar_output ≡ m ∷ []
      → target ≡ none
      → Ensures (Confined 1 a) (static_handle_licensing (some this) a s)
  unfolding static_handle_licensing
  detached a n m e f g h = ground (arith, attaches)

  switched :
      (a : Arguments) (n m : ℕ) (r : Ref) (i : Input)
      → counts_match licensing_dispatch a ≡ true
      → a.scalar_input ≡ n ∷ []
      → a.scalar_output ≡ m ∷ []
      → target ≡ some r
      → s.interfaces r ≡ some i
      → Ensures (Confined 1 a) (static_handle_licensing (some this) a s)
  unfolding static_handle_licensing
  switched a n m r i e f g h k = ground (arith, attaches)

  handled :
      (a : Arguments) (n m : ℕ)
      → is_live s target ≡ true
      → counts_match licensing_dispatch a ≡ true
      → a.scalar_input ≡ n ∷ []
      → a.scalar_output ≡ m ∷ []
      → Ensures (Confined 1 a) (static_handle_licensing (some this) a s)
  handled a n m live e f g = elim (Option-cases target) [
    | inl h ↦ detached a n m e f g h
    | inr (r, h) ↦ elim (Option-cases (s.interfaces r)) [
      | inl k ↦ absurd (ground (arith, live, h, k))
      | inr (i, k) ↦ switched a n m r i e f g h k
    ]
  ]

  matched :
      (a : Arguments)
      → is_live s target ≡ true
      → a.has_completion ≡ false
      → counts_match licensing_dispatch a ≡ true
      → Ensures (Confined 1 a) (external_method env this 1 a dispatch none reference s)
  matched a live alone e =
      let (n, f) = singleton a.scalar_input (ground (arith, e)) in
      let (m, g) = singleton a.scalar_output (ground (arith, e)) in
      rw (external_method-static env this dispatch reference checks s a e alone)
        (handled a n m live e f g)

  confined :
      (selector : ℕ) (a : Arguments)
      → is_live s target ≡ true
      → selector < 2
      → a.has_completion ≡ false
      → Ensures
          (Confined selector a)
          (external_method env this selector a dispatch none reference s)
  unfolding external_method
  confined zero a live small alone = record {
    answered = refl;
    inputs = refl;
    room = refl;
    clients = refl;
    interfaces = λ q. refl;
  }
  confined (suc zero) a live small alone = elim (Bool-cases (counts_match licensing_dispatch a)) [
    | inr e ↦ refused a e
    | inl e ↦ matched a live alone e
  ]
  confined (suc (suc n)) a live small alone = absurd (omega (arith, small))

  -- With DriverKit's check of the counts, and a client that is attached to no interface or to a live
  -- one: a call with selector 0 or 1 and without a completion ends without undefined behaviour for
  -- all arguments, of whatever counts. It succeeds just if the selector is 1 and there are one
  -- number in and room for one out. It never changes a client, its inputs or the room for its
  -- outputs; if it succeeds, the interface that the client is attached to is enabled or disabled as
  -- its number says, and no other interface is changed, and if it fails, none at all.
  pub external_method-IsConfined :
      (selector : ℕ) (a : Arguments)
      → is_live s target ≡ true
      → selector < 2
      → a.has_completion ≡ false
      → (ret : KernReturn) × (b : Arguments) × (t : System) × (external_method env this selector a
            dispatch none reference s
          ≡ some ((ret, b), t))
        × IsConfined selector a target s ret b t
  external_method-IsConfined selector a live small alone =
      let ((ret, b), t, ran, q) = Ensures-some _ _ (confined selector a live small alone) in
      (ret, b, t, ran, q)
