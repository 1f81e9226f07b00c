-- ===== src/Input/Startup/Owned/Begin.antt =====
-- `handleStart`: what it takes and does not give back is stored.
use vendor_specific_usbdrive.Base.{
  ℕ, ◌≡◌, Bool, true, false, List, arith, Allows, Allows-bind, Allows-step, Option-cases, inl, inr,
}
use vendor_specific_usbdrive.Kit.{Ref}
use vendor_specific_usbdrive.Input.State.{Resource, Input, Env}
use vendor_specific_usbdrive.Input.Setup.{setup_pipes}
use vendor_specific_usbdrive.Input.Startup.{
  init_descriptors, init_pipes, create_action, handle_start, call_super_handle_start,
  retain_interface, begin_communication, init_packet, init_packet_size, swap_to_wired_packet,
  swap_to_wired_packet_size,
}
use vendor_specific_usbdrive.Input.Send.{send_interrupt_data}
use vendor_specific_usbdrive.Input.Receive.{request_async_interrupt_data}
use vendor_specific_usbdrive.Input.Startup.Pipes.{vars}
use vendor_specific_usbdrive.Input.Startup.Owned.{
  is_settled, LeavesPointers, IsOwned, keeping, hit_interface, send_interrupt_data-Keeps,
  request_async_interrupt_data-Keeps, call_super_handle_start-Keeps,
}
use vendor_specific_usbdrive.Input.Startup.Owned.Dictionary.{setup_pipes-Owned}
use vendor_specific_usbdrive.Input.Startup.Owned.Endpoints.{
  init_descriptors-IsOwned, init_pipes-Owned,
}

module _ (env : Env) (k : Resource) (x : Ref) (settled : is_settled k ≡ true)
    (taken given n : ℕ) where
  module _ (c i o a : Bool) where
    abbrev Owned : Input → Type 0
    Owned = IsOwned k x taken given n c i o a

    send-Owned :
        (bytes : List ℕ) (size : ℕ) (s : Input)
        → Owned s
        → Allows (λ _. Owned) (send_interrupt_data env bytes size s)
    send-Owned bytes size s w =
        keeping k x taken given n c i o a (send_interrupt_data env bytes size s) s
          (send_interrupt_data-Keeps env k x bytes size s) w

    request-Owned : (s : Input) → Owned s → Allows (λ _. Owned) (request_async_interrupt_data env s)
    request-Owned s w =
        keeping k x taken given n c i o a (request_async_interrupt_data env s) s
          (request_async_interrupt_data-Keeps env k x s) w

    retain_interface-Owned : (s : Input) → Owned s → Allows (λ _. Owned) (retain_interface s)
    unfolding retain_interface
    retain_interface-Owned s w = elim (Option-cases (vars s).interface) [
      | inl e ↦ ground (arith, e)
      | inr (r, e) ↦ ground (arith, e, hit_interface k x settled r)
    ]

    begin_communication-Owned :
        (s : Input) → Owned s → Allows (λ _. Owned) (begin_communication env s)
    unfolding begin_communication
    begin_communication-Owned s w =
        Allows-bind (λ _. Owned) (λ _. Owned) (send_interrupt_data env init_packet init_packet_size)
          _ s (send-Owned init_packet init_packet_size s w)
          λ _ t q.
            Allows-bind (λ _. Owned) (λ _. Owned)
              (send_interrupt_data env swap_to_wired_packet swap_to_wired_packet_size) _ t
              (send-Owned swap_to_wired_packet swap_to_wired_packet_size t q)
              λ _ u r.
                Allows-bind (λ _. Owned) (λ _. Owned) (request_async_interrupt_data env) _ u
                  (request-Owned u r) λ _ z h. retain_interface-Owned z h

  module _ (lp : LeavesPointers env) where
    create_action-Owned :
        (c i o : Bool) (s : Input)
        → IsOwned k x taken given n c i o true s
        → Allows (λ _. IsOwned k x taken given n c i o false) (create_action env s)
    unfolding create_action
    create_action-Owned c i o s w = elim (Option-cases s.ivars) [
      | inl e ↦ ground (arith, e)
      | inr (v, e) ↦ ground (arith, e, lp.actions s.log v.in_pipe.memory.length v.got_data_action)
    ]

module _ (env : Env) (lp : LeavesPointers env) (k : Resource) (x : Ref)
    (settled : is_settled k ≡ true) (taken given : ℕ) where
  abbrev pub Settled : Input → Type 0
  Settled = IsOwned k x taken given 0 false false false false

  forget : (c i o a : Bool) (t : Input) → IsOwned k x taken given 0 c i o a t → Settled t
  forget c i o a t w = ground arith

  pub handle_start-Owned :
      (s : Input)
      → IsOwned k x taken given 0 true true true true s
      → Allows (λ _. Settled) (handle_start env s)
  unfolding handle_start
  handle_start-Owned s w =
      let stage = IsOwned k x taken given 0 in
      Allows-step (stage true true true true) Settled (call_super_handle_start env) _ s
        (keeping k x taken given 0 true true true true (call_super_handle_start env s) s
          (call_super_handle_start-Keeps env k x s) w)
        (forget true true true true)
        λ t q.
          Allows-step (stage false true true true) Settled (init_descriptors env) _ t
            (init_descriptors-IsOwned env k x settled taken given 0 true true true t q)
            (forget false true true true)
            λ u r.
              Allows-step (stage false true true true) Settled (init_pipes env) _ u
                (init_pipes-Owned env k x settled taken given 0 false true true true u r)
                (forget false true true true)
                λ z h.
                  Allows-step (stage false false false true) Settled (setup_pipes env) _ z
                    (setup_pipes-Owned env lp k x settled taken given z h)
                    (forget false false false true)
                    λ t' q'.
                      Allows-step Settled Settled (create_action env) _ t'
                        (create_action-Owned env k x settled taken given 0 lp false false false t'
                          q')
                        (forget false false false false)
                        λ u' r'.
                          begin_communication-Owned env k x settled taken given 0 false false false
                            false u' r'
