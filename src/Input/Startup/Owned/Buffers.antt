-- ===== src/Input/Startup/Owned/Buffers.antt =====
-- `SetupPipe`: a buffer that is created is stored.
use vendor_specific_usbdrive.Base.{
  ℕ, ◌≡◌, Bool, true, false, some, arith, Allows, Allows-bind, Allows-step, Option-cases, inl, inr,
}
use vendor_specific_usbdrive.Kit.{Ref}
use vendor_specific_usbdrive.Input.State.{
  Ivars, Resource, Input, Env, Side, in_side, out_side, pipe_of,
}
use vendor_specific_usbdrive.Input.Setup.{
  create_buffer, map_created, map_memory, setup_memory, measure_pipe, setup_pipe,
}
use vendor_specific_usbdrive.Input.Startup.Owned.{
  is_settled, LeavesPointers, IsOwned, keeping, measure_pipe-Keeps, map_memory-Keeps,
}

-- Whether a pointer has to be null before a pipe is set up, and whether it is so after that.
abbrev pub needs : (which side : Side) → Bool → Bool
needs in_side in_side b = true
needs in_side out_side b = b
needs out_side in_side b = b
needs out_side out_side b = true

abbrev pub after : (which side : Side) → Bool → Bool
after in_side in_side b = false
after in_side out_side b = b
after out_side in_side b = b
after out_side out_side b = false

module _ (env : Env) (k : Resource) (x : Ref) (settled : is_settled k ≡ true)
    (taken given n : ℕ) where
  module _ (c i o a : Bool) where
    abbrev Owned : Input → Type 0
    Owned = IsOwned k x taken given n c i o a

    map_created-Owned :
        (side : Side) (created : Bool) (s : Input)
        → Owned s
        → Allows (λ _. Owned) (map_created env side created s)
    unfolding map_created
    map_created-Owned side false s w = w
    map_created-Owned side true s w = elim (Option-cases s.ivars) [
      | inl e ↦ ground (arith, e)
      | inr (v, e) ↦ elim (Option-cases (pipe_of side v).memory.buffer) [
        | inl e' ↦ ground (arith, e, e')
        | inr (b, e') ↦ ground (
          arith,
          e,
          e',
          keeping k x taken given n c i o a (map_memory env side b s) s
              (map_memory-Keeps env k x side b s) w,
        )
      ]
    ]

    measure_pipe-Owned :
        (side : Side) (s : Input) → Owned s → Allows (λ _. Owned) (measure_pipe env side s)
    measure_pipe-Owned side s w =
        keeping k x taken given n c i o a (measure_pipe env side s) s
          (measure_pipe-Keeps env k x side s) w

  module _ (lp : LeavesPointers env) where
    abbrev pub Before : (c i o a : Bool) → Side → Input → Type 0
    Before c i o a side =
        IsOwned k x taken given n c (needs in_side side i) (needs out_side side o) a

    abbrev pub After : (c i o a : Bool) → Side → Input → Type 0
    After c i o a side =
        IsOwned k x taken given n c (after in_side side i) (after out_side side o) a

    Before-After :
        (c i o a : Bool) (side : Side) (s : Input) → Before c i o a side s → After c i o a side s
    Before-After c i o a in_side s w = ground arith
    Before-After c i o a out_side s w = ground arith

    created-Owned :
        (c i o a : Bool) (side : Side) (size : ℕ) (s : Input)
        → Before c i o a side s
        → (v : Ivars) (r : Ref) → s.ivars ≡ some v
        → v.interface ≡ some r
        → Allows (λ _. After c i o a side) (create_buffer env side size s)
    unfolding create_buffer
    created-Owned c i o a in_side size s w v r l p =
        ground (arith, lp.buffers s.log r size v.in_pipe.memory.buffer)
    created-Owned c i o a out_side size s w v r l p =
        ground (arith, lp.buffers s.log r size v.out_pipe.memory.buffer)

    create_buffer-Owned :
        (c i o a : Bool) (side : Side) (size : ℕ) (s : Input)
        → Before c i o a side s
        → Allows (λ _. After c i o a side) (create_buffer env side size s)
    unfolding create_buffer
    create_buffer-Owned c i o a side size s w = elim (Option-cases s.ivars) [
      | inl e ↦ ground (arith, e)
      | inr (v, e) ↦ elim (Option-cases v.interface) [
        | inl e' ↦ ground (arith, e, e')
        | inr (r, e') ↦ created-Owned c i o a side size s w v r e e'
      ]
    ]

    setup_memory-Owned :
        (c i o a : Bool) (side : Side) (size : ℕ) (s : Input)
        → Before c i o a side s
        → Allows (λ _. After c i o a side) (setup_memory env side size s)
    unfolding setup_memory
    setup_memory-Owned c i o a side size s w =
        Allows-bind (λ _. After c i o a side) (λ _. After c i o a side)
          (create_buffer env side size) _ s (create_buffer-Owned c i o a side size s w)
          λ created t q.
            map_created-Owned c (after in_side side i) (after out_side side o) a side created t q

    pub setup_pipe-Owned :
        (c i o a : Bool) (side : Side) (s : Input)
        → Before c i o a side s
        → Allows (λ _. After c i o a side) (setup_pipe env side s)
    unfolding setup_pipe
    setup_pipe-Owned c i o a side s w =
        Allows-step (Before c i o a side) (After c i o a side) (measure_pipe env side) _ s
          (measure_pipe-Owned c (needs in_side side i) (needs out_side side o) a side s w)
          (Before-After c i o a side)
          λ t q. elim (Option-cases t.ivars) [
            | inl e ↦ ground (arith, e)
            | inr (v, e) ↦
                ground
                  (arith, e, setup_memory-Owned c i o a side (pipe_of side v).max_packet_size t q)
          ]
