-- ===== src/Input/Startup/Prepare.antt =====
-- `SetupPipe` and `SetupPipes`: what they need, and what they leave.
use vendor_specific_usbdrive.Base.{
  ℕ, ◌≡◌, ◌≢◌, refl, Bool, true, false, Option, arith, is_some, Ensures, pure, not, if◌then◌else◌,
  ◌>>◌, Ensures-bind, Option-cases, inl, inr,
}
use vendor_specific_usbdrive.Kit.{Ref, is_success}
use vendor_specific_usbdrive.Input.State.{
  Ivars, Input, Env, Side, in_side, out_side, pipe_of, max_input_report_size, emit_some, acquire,
  properties,
}
use vendor_specific_usbdrive.Input.Setup.{
  create_buffer, map_created, setup_both, set_report_size, setup_out, map_memory, measure_pipe,
  setup_memory, setup_pipe, setup_pipes,
}
use vendor_specific_usbdrive.Input.Startup.Pipes.{vars, IsDocumented, IsKept, IsPiped, IsPrepared}

module _ (env : Env) (i : Ref) (c : ℕ) (e : Bool) (n m h : ℕ) where
  abbrev Other : Side → Ivars → Input → Type 0
  Other in_side v t = (vars t).out_pipe ≡ v.out_pipe
  Other out_side v t = (vars t).in_pipe ≡ v.in_pipe

  -- While a pipe is set up: both pipes are still there, and the other's variables as before.
  record IsUnderway (side : Side) (v : Ivars) (t : Input) : Type 0 where
    kept : IsKept i c e n m h t
    piped : IsPiped t
    other : Other side v t

  record IsPaced (side : Side) (t : Input) : Type 0 where
    paced : (pipe_of side (vars t)).interval ≢ 0
    sized : (pipe_of side (vars t)).max_packet_size ≢ 0

  abbrev Paced : Side → Ivars → Bool → Input → Type 0
  Paced side v b t = IsUnderway side v t × (b ≡ true → IsPaced side t)

  abbrev Buffered : Side → Ivars → Bool → Input → Type 0
  Buffered side v b t =
      IsUnderway side v t
      × IsPaced side t
      × (b ≡ true → is_some (pipe_of side (vars t)).memory.buffer ≡ true)

  abbrev SetUp : Side → Ivars → Bool → Input → Type 0
  SetUp side v b t = IsUnderway side v t × (b ≡ true → IsPrepared (pipe_of side (vars t)))

  -- Behind `SetupPipes`.
  abbrev pub AllSetUp : Bool → Input → Type 0
  AllSetUp b t =
      IsKept i c e n m h t
      × (b ≡ true → IsPiped t × IsPrepared (vars t).in_pipe × IsPrepared (vars t).out_pipe)

  module _ (doc : IsDocumented env) where
    measure_pipe-Paced :
        (side : Side) (s : Input)
        → IsKept i c e n m h s
        → IsPiped s
        → Ensures (Paced side (vars s)) (measure_pipe env side s)
    unfolding measure_pipe
    measure_pipe-Paced in_side s k p = ground arith
    measure_pipe-Paced out_side s k p = ground arith

    create_buffer-Buffered :
        (side : Side) (v : Ivars) (size : ℕ) (s : Input)
        → IsUnderway side v s
        → IsPaced side s
        → Ensures (Buffered side v) (create_buffer env side size s)
    unfolding create_buffer
    create_buffer-Buffered in_side v size s u p =
        ground (arith, doc.creates s.log i size (vars s).in_pipe.memory.buffer)
    create_buffer-Buffered out_side v size s u p =
        ground (arith, doc.creates s.log i size (vars s).out_pipe.memory.buffer)

    map_memory-SetUp :
        (side : Side) (v : Ivars) (buffer : Ref) (s : Input)
        → Buffered side v true s
        → Ensures (SetUp side v) (map_memory env side buffer s)
    unfolding map_memory
    map_memory-SetUp in_side v buffer s b =
        ground (arith, doc.maps s.log buffer, doc.measures s.log buffer, b.2 refl)
    map_memory-SetUp out_side v buffer s b =
        ground (arith, doc.maps s.log buffer, doc.measures s.log buffer, b.2 refl)

    mapped-SetUp :
        (side : Side) (v : Ivars) (created : Bool) (t : Input)
        → Buffered side v created t
        → Ensures (SetUp side v) (map_created env side created t)
    unfolding map_created
    mapped-SetUp side v false t b = ground arith
    mapped-SetUp side v true t b = elim (Option-cases (pipe_of side (vars t)).memory.buffer) [
      | inl gone ↦ cc (gone, b.2 refl)
      | inr (r, there) ↦ ground (arith, there, map_memory-SetUp side v r t b)
    ]

    setup_memory-SetUp :
        (side : Side) (v : Ivars) (size : ℕ) (s : Input)
        → IsUnderway side v s
        → IsPaced side s
        → Ensures (SetUp side v) (setup_memory env side size s)
    unfolding setup_memory
    setup_memory-SetUp side v size s u p =
        Ensures-bind (Buffered side v) (SetUp side v) (create_buffer env side size)
          (map_created env side) s (create_buffer-Buffered side v size s u p) (mapped-SetUp side v)

    setup_pipe-SetUp :
        (side : Side) (s : Input)
        → IsKept i c e n m h s
        → IsPiped s
        → Ensures (SetUp side (vars s)) (setup_pipe env side s)
    unfolding setup_pipe
    setup_pipe-SetUp side s k p =
        Ensures-bind (Paced side (vars s)) (SetUp side (vars s)) (measure_pipe env side) _ s
          (measure_pipe-Paced side s k p)
          λ measured t q.
            ground
              (arith, setup_memory-SetUp side (vars s) (pipe_of side (vars t)).max_packet_size t)

    abbrev InReady : Input → Type 0
    InReady t = IsKept i c e n m h t × IsPiped t × IsPrepared (vars t).in_pipe

    setup_out-AllSetUp :
        (p : Option Ref) (s : Input) → InReady s → Ensures AllSetUp (setup_out env p s)
    unfolding setup_out
    setup_out-AllSetUp p s q =
        Ensures-bind (SetUp out_side (vars s)) AllSetUp (setup_pipe env out_side) _ s
          (setup_pipe-SetUp out_side s q.0 q.1) λ b t r. ground arith

    setup_both-AllSetUp :
        (p : Option Ref) (s : Input)
        → IsKept i c e n m h s
        → IsPiped s
        → Ensures AllSetUp (setup_both env p s)
    unfolding setup_both
    setup_both-AllSetUp p s k q =
        Ensures-bind (SetUp in_side (vars s)) AllSetUp (setup_pipe env in_side) _ s
          (setup_pipe-SetUp in_side s k q) next
      where
        next :
            (b : Bool) (t : Input)
            → SetUp in_side (vars s) b t
            → Ensures AllSetUp (
                (if not b
                    then pure false
                    else (set_report_size env p max_input_report_size >> setup_out env p))
                  t)
        next false t r = ground arith
        next true t r =
            Ensures-bind (λ _. InReady) AllSetUp (set_report_size env p max_input_report_size)
              (λ _. setup_out env p) t (ground (arith, r.1 refl)) (λ _ u. setup_out-AllSetUp p u)

    pub setup_pipes-AllSetUp :
        (s : Input) → IsKept i c e n m h s → IsPiped s → Ensures AllSetUp (setup_pipes env s)
    unfolding setup_pipes
    setup_pipes-AllSetUp s k p =
        Ensures-bind (λ _ t. IsKept i c e n m h t × IsPiped t) AllSetUp
          (emit_some (acquire properties) (env.copy_properties s.log).1) _ s (ground arith)
          λ _ t q.
            Ensures-bind AllSetUp AllSetUp
              (λ u.
                (if not (is_success (env.copy_properties s.log).0)
                    then pure false
                    else setup_both env (env.copy_properties s.log).1)
                  u)
              _ t (if-Ensures (is_success (env.copy_properties s.log).0) t q)
              λ b u r. elim (Option-cases (env.copy_properties s.log).1) [
                | inl e ↦ ground (arith, e)
                | inr (x, e) ↦ ground (arith, e)
              ]
      where
        if-Ensures :
            (b : Bool) (t : Input)
            → IsKept i c e n m h t × IsPiped t
            → Ensures AllSetUp
                ((if not b then pure false else setup_both env (env.copy_properties s.log).1) t)
        if-Ensures false t q = ground arith
        if-Ensures true t q = setup_both-AllSetUp _ t q.0 q.1
