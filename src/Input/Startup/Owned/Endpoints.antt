-- ===== src/Input/Startup/Owned/Endpoints.antt =====
-- `InitDescriptors` and `InitPipes`: the configuration descriptor is stored.
use vendor_specific_usbdrive.Base.{
  ℕ, ◌≡◌, refl, Bool, true, false, Option, none, some, List, [], ◌∷◌, arith, if◌then◌else◌, not, M,
  pure, Allows, Allows-bind, Option-cases, inl, inr,
}
use vendor_specific_usbdrive.Kit.{
  Ref, is_success, is_interrupt, EndpointDirection, in_direction, out_direction, unknown_direction,
}
use vendor_specific_usbdrive.Input.State.{
  Ivars, Resource, Input, Env, Side, in_side, out_side, pipe_of,
}
use vendor_specific_usbdrive.Input.Startup.{
  init_descriptors, copy_pipe, claim_endpoint, pipes_loop, init_pipes,
}
use vendor_specific_usbdrive.Input.Startup.Pipes.{vars}
use vendor_specific_usbdrive.Input.Startup.Owned.{
  is_settled, IsOwned, hit_in_endpoint, hit_out_endpoint,
}

chosen :
    {S : Type 0} (Q : S → Type 0) (ok both : Bool) (rest : M S Bool) (t : S)
    → Q t
    → Allows (λ _. Q) (rest t)
    → Allows (λ _. Q) ((if not ok then pure false else if both then pure true else rest) t)
chosen Q false both rest t q go = q
chosen Q true true rest t q go = q
chosen Q true false rest t q go = go

looped :
    {S : Type 0} (Q : S → Type 0) (skipped : Bool) (heading : EndpointDirection)
    (rest as_in as_out : M S Bool) (s : S)
    → Allows (λ _. Q) (rest s)
    → Allows (λ _. Q) (as_in s)
    → Allows (λ _. Q) (as_out s)
    → Allows
        (λ _. Q)
        ((if skipped then rest else elim heading [
          | in_direction ↦ as_in
          | out_direction ↦ as_out
          | unknown_direction ↦ rest
        ])
          s)
looped Q skipped heading rest as_in as_out s r h_in h_out = ground arith

module _ (env : Env) (k : Resource) (x : Ref) (settled : is_settled k ≡ true)
    (taken given n : ℕ) where
  pub init_descriptors-IsOwned :
      (i o a : Bool) (s : Input)
      → IsOwned k x taken given n true i o a s
      → Allows (λ _. IsOwned k x taken given n false i o a) (init_descriptors env s)
  unfolding init_descriptors
  init_descriptors-IsOwned i o a s w = ground arith

  module _ (c i o a : Bool) where
    abbrev Owned : Input → Type 0
    Owned = IsOwned k x taken given n c i o a

    copied-Owned :
        (side : Side) (endpoint : Ref) (s : Input)
        → Owned s
        → (v : Ivars) (i : Ref) → s.ivars ≡ some v
        → v.interface ≡ some i
        → (r : Option Ref)
        → (env.copy_pipe s.log i (env.endpoint_address endpoint) (pipe_of side v).pipe).1 ≡ r
        → Allows (λ _. Owned) (copy_pipe env side endpoint s)
    unfolding copy_pipe
    copied-Owned in_side endpoint s w v i l p none h = ground (arith, h)
    copied-Owned in_side endpoint s w v i l p (some q) h =
        ground (arith, h, hit_in_endpoint k x settled q)
    copied-Owned out_side endpoint s w v i l p none h = ground (arith, h)
    copied-Owned out_side endpoint s w v i l p (some q) h =
        ground (arith, h, hit_out_endpoint k x settled q)

    copy_pipe-Owned :
        (side : Side) (endpoint : Ref) (s : Input)
        → Owned s
        → Allows (λ _. Owned) (copy_pipe env side endpoint s)
    unfolding copy_pipe
    copy_pipe-Owned side endpoint s w = elim (Option-cases s.ivars) [
      | inl e ↦ ground (arith, e)
      | inr (v, e) ↦ elim (Option-cases v.interface) [
        | inl e' ↦ ground (arith, e, e')
        | inr (i', e') ↦ copied-Owned side endpoint s w v i' e e' _ refl
      ]
    ]

    claim_endpoint-Owned :
        (side : Side) (endpoint : Ref) (rest : M Input Bool) (s : Input)
        → Owned s
        → ((t : Input) → Owned t → Allows (λ _. Owned) (rest t))
        → Allows (λ _. Owned) (claim_endpoint env side endpoint rest s)
    unfolding claim_endpoint
    claim_endpoint-Owned side endpoint rest s w go =
        Allows-bind (λ _. Owned) (λ _. Owned) (copy_pipe env side endpoint) _ s
          (copy_pipe-Owned side endpoint s w)
          λ (ret, both) t q. chosen Owned (is_success ret) both rest t q (go t q)

    pipes_loop-Owned :
        (endpoints : List Ref) (s : Input)
        → Owned s
        → Allows (λ _. Owned) (pipes_loop env endpoints s)
    unfolding pipes_loop
    pipes_loop-Owned [] s w = w
    pipes_loop-Owned (endpoint ∷ endpoints) s w =
        let next = pipes_loop-Owned endpoints in
        looped Owned (not (is_interrupt (env.endpoint_type endpoint)))
          (env.endpoint_direction endpoint) _ _ _ s (next s w)
          (claim_endpoint-Owned in_side endpoint _ s w next)
          (claim_endpoint-Owned out_side endpoint _ s w next)

    pub init_pipes-Owned : (s : Input) → Owned s → Allows (λ _. Owned) (init_pipes env s)
    unfolding init_pipes
    init_pipes-Owned s w = ground (
      arith,
      pipes_loop-Owned
          (env.endpoints (vars s).configuration_descriptor (vars s).interface_descriptor) s w,
    )
