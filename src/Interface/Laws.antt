-- ===== src/Interface/Laws.antt =====
-- Which interfaces `handleStart` accepts, and what it gives back.
use vendor_specific_usbdrive.Base.{
  ℕ, suc, ◌+◌, ◌≡◌, Bool, true, Option, some, List, [], ◌∷◌, arith, Ensures, Ensures-some, ◌==◌,
  ==_iff, Bool-cases, Option-cases, inl, inr,
}
use vendor_specific_usbdrive.Kit.{Ref}
use vendor_specific_usbdrive.Interface.{
  CoreIvars, CoreEvent, descriptor_copied, descriptor_freed, super_called, Core, CoreEnv,
  handle_start,
}

abbrev pub copies : List CoreEvent → ℕ
copies [] = 0
copies (descriptor_copied _ ∷ es) = suc (copies es)
copies (descriptor_freed _ ∷ es) = copies es
copies (super_called _ ∷ es) = copies es

abbrev pub frees : List CoreEvent → ℕ
frees [] = 0
frees (descriptor_freed _ ∷ es) = suc (frees es)
frees (descriptor_copied _ ∷ es) = frees es
frees (super_called _ ∷ es) = frees es

-- The provider is a USB interface with descriptors, and its number is that of the input interface.
pub record IsSupported (env : CoreEnv) (provider : Option Ref) (log : List CoreEvent) : Type 0 where
  pub i : Ref
  pub configuration : Ref
  pub descriptor : Ref
  pub casts : env.as_host_interface provider ≡ some i
  pub copied : env.copy_configuration_descriptor log i ≡ some configuration
  pub found : env.get_interface_descriptor i configuration ≡ some descriptor
  pub numbered : env.interface_number descriptor ≡ 0

module _ (env : CoreEnv) (provider : Option Ref) (s : Core) (v : CoreIvars)
    (loaded : s.ivars ≡ some v) where
  abbrev IsHandled : Bool → Core → Type 0
  IsHandled b t =
      (copies t.log + frees s.log ≡ frees t.log + copies s.log)
      × (t.ivars ≡ some (record v { interface = env.as_host_interface provider }))
      × (b ≡ true → IsSupported env provider s.log)

  handled : Ensures IsHandled (handle_start env provider s)
  unfolding handle_start
  handled = elim (Option-cases (env.as_host_interface provider)) [
    | inl e ↦ ground (arith, e)
    | inr (i, e) ↦ elim (Option-cases (env.copy_configuration_descriptor s.log i)) [
      | inl f ↦ ground (arith, e, f)
      | inr (c, f) ↦ elim (Option-cases (env.get_interface_descriptor i c)) [
        | inl g ↦ ground (arith, e, f, g)
        | inr (d, g) ↦ elim (Bool-cases (env.interface_number d == 0)) [
          | inl n ↦
              let supported : IsSupported env provider s.log = record {
                i = i;
                configuration = c;
                descriptor = d;
                casts = e;
                copied = f;
                found = g;
                numbered = (==_iff _ _).0 n;
              } in
              ground (arith, e, f, g, n, supported)
          | inr n ↦ ground (arith, e, f, g, n)
        ]
      ]
    ]
  ]

  -- From stored variables, `handleStart` ends without undefined behaviour whatever the provider is
  -- and the frameworks answer. It frees the configuration descriptor if it has copied it, it keeps
  -- what the provider is as an interface, and it returns true only for an interface that is
  -- supported, number 0.
  pub handle_start-IsSupported :
      (b : Bool) × (t : Core) × (handle_start env provider s ≡ some (b, t))
      × (copies t.log + frees s.log ≡ frees t.log + copies s.log)
      × (t.ivars ≡ some (record v { interface = env.as_host_interface provider }))
      × (b ≡ true → IsSupported env provider s.log)
  handle_start-IsSupported =
      let (b, t, ran, q) = Ensures-some IsHandled (handle_start env provider s) handled in
      (b, t, ran, q.0, q.1, q.2)
