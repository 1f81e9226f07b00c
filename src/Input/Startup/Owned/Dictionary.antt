-- ===== src/Input/Startup/Owned/Dictionary.antt =====
-- `SetupPipes`: the properties are given back at once.
use vendor_specific_usbdrive.Base.{
  ℕ, ◌+◌, ◌≡◌, Bool, true, false, Option, none, some, arith, if◌then◌else◌, not, pure, ◌>>◌, Allows,
  Allows-bind, Allows-guard, Allows-step,
}
use vendor_specific_usbdrive.Kit.{Ref, is_success}
use vendor_specific_usbdrive.Input.State.{
  Resource, properties, acquire, release, Input, Env, PropertyKey, in_side, out_side,
  max_input_report_size, max_output_report_size, emit_some,
}
use vendor_specific_usbdrive.Input.Setup.{
  set_report_size, setup_out, setup_both, setup_pipes, setup_pipe,
}
use vendor_specific_usbdrive.Input.Startup.Owned.{
  is_settled, LeavesPointers, held, IsOwned, keeping, set_report_size-Keeps,
}
use vendor_specific_usbdrive.Input.Startup.Owned.Buffers.{setup_pipe-Owned}

module _ (env : Env) (k : Resource) (x : Ref) (settled : is_settled k ≡ true)
    (taken given n : ℕ) where
  module _ (c i o a : Bool) where
    abbrev Owned : Input → Type 0
    Owned = IsOwned k x taken given n c i o a

    reported :
        (p : Option Ref) (key : PropertyKey) (s : Input)
        → Owned s
        → Allows (λ _. Owned) ((set_report_size env p key >> pure true) s)
    reported p key s w =
        Allows-bind (λ _. Owned) (λ _. Owned) (set_report_size env p key) _ s
          (keeping k x taken given n c i o a (set_report_size env p key s) s
            (set_report_size-Keeps env k x p key s) w)
          λ _ t q. q

  module _ (lp : LeavesPointers env) where
    setup_out-Owned :
        (c a : Bool) (p : Option Ref) (s : Input)
        → IsOwned k x taken given n c false true a s
        → Allows (λ _. IsOwned k x taken given n c false false a) (setup_out env p s)
    unfolding setup_out
    setup_out-Owned c a p s w =
        let Q = IsOwned k x taken given n c false false a in
        Allows-step Q Q (setup_pipe env out_side) _ s
          (setup_pipe-Owned env k x settled taken given n lp c false true a out_side s w) (λ t q. q)
          λ t q. reported c false false a p max_output_report_size t q

    setup_both-Owned :
        (c a : Bool) (p : Option Ref) (s : Input)
        → IsOwned k x taken given n c true true a s
        → Allows (λ _. IsOwned k x taken given n c false false a) (setup_both env p s)
    unfolding setup_both
    setup_both-Owned c a p s w =
        let Q = IsOwned k x taken given n c false false a in
        let P = IsOwned k x taken given n c false true a in
        Allows-step P Q (setup_pipe env in_side) _ s
          (setup_pipe-Owned env k x settled taken given n lp c true true a in_side s w)
          (λ t q. ground (arith, q))
          λ t q.
            Allows-bind (λ _. P) (λ _. Q) (set_report_size env p max_input_report_size) _ t
              (keeping k x taken given n c false true a
                (set_report_size env p max_input_report_size t) t
                (set_report_size-Keeps env k x p max_input_report_size t) q)
              λ _ u r. setup_out-Owned c a p u r

-- The properties, which `SetupPipes` gives back itself.
module _ (k : Resource) (x : Ref) (taken given n : ℕ) (c i o a : Bool) where
  taking :
      (p : Option Ref) (s : Input)
      → IsOwned k x taken given n c i o a s
      → Allows
          (λ _. IsOwned k x taken given (n + held k x properties p) c i o a)
          (emit_some (acquire properties) p s)
  taking none s w = ground arith
  taking (some r) s w = ground arith

  giving :
      (p : Option Ref) (s : Input)
      → IsOwned k x taken given (n + held k x properties p) c i o a s
      → Allows (λ _. IsOwned k x taken given n c i o a) (emit_some (release properties) p s)
  giving none s w = ground arith
  giving (some r) s w = ground arith

module _ (env : Env) (lp : LeavesPointers env) (k : Resource) (x : Ref)
    (settled : is_settled k ≡ true) (taken given : ℕ) where
  middle :
      (p : Option Ref) (ok : Bool) (n : ℕ) (t : Input)
      → IsOwned k x taken given n false true true true t
      → Allows
          (λ _. IsOwned k x taken given n false false false true)
          ((if not ok then pure false else setup_both env p) t)
  middle p ok n t w =
      Allows-guard (λ _. IsOwned k x taken given n false false false true) ok _ t
        (ground (arith, w)) λ _. setup_both-Owned env k x settled taken given n lp false true p t w

  pub setup_pipes-Owned :
      (s : Input)
      → IsOwned k x taken given 0 false true true true s
      → Allows (λ _. IsOwned k x taken given 0 false false false true) (setup_pipes env s)
  unfolding setup_pipes
  setup_pipes-Owned s w =
      let p = (env.copy_properties s.log).1 in
      let ok = is_success (env.copy_properties s.log).0 in
      let n = 0 + held k x properties p in
      let Q = IsOwned k x taken given 0 false false false true in
      Allows-bind (λ _. IsOwned k x taken given n false true true true) (λ _. Q)
        (emit_some (acquire properties) p) _ s (taking k x taken given 0 false true true true p s w)
        λ _ t q.
          Allows-bind (λ _. IsOwned k x taken given n false false false true) (λ _. Q)
            (if not ok then pure false else setup_both env p) _ t (middle p ok n t q)
            λ result u r.
              Allows-bind (λ _. Q) (λ _. Q) (emit_some (release properties) p) _ u
                (giving k x taken given 0 false false false true p u r) λ _ z h. h
