-- ===== src/Input/Startup/ReportSize.antt =====
-- The sizes of reports that `SetupPipes` stores.
use vendor_specific_usbdrive.Base.{
  ◌≡◌, Bool, true, Option, false, some, arith, pure, not, if◌then◌else◌, ◌>>◌, >>=-eq-some,
}
use vendor_specific_usbdrive.Kit.{Ref}
use vendor_specific_usbdrive.Input.State.{
  Input, Env, Side, in_side, out_side, max_input_report_size, max_output_report_size,
}
use vendor_specific_usbdrive.Input.Setup.{
  setup_both, setup_out, set_report_size, setup_pipe, measure_pipe, setup_memory, create_buffer,
  map_created, map_memory,
}
use vendor_specific_usbdrive.Input.Startup.Pipes.{vars}

-- Setting up a pipe stores no size of reports.
abbrev SameSizes : Input → Bool → Input → Type 0
SameSizes s b t =
    ((vars t).in_pipe.report_size ≡ (vars s).in_pipe.report_size)
    × ((vars t).out_pipe.report_size ≡ (vars s).out_pipe.report_size)

setup_pipe-SameSizes :
    (env : Env) (side : Side) (s : Input) (b : Bool) (t : Input)
    → setup_pipe env side s ≡ some (b, t)
    → SameSizes s b t
unfolding setup_pipe measure_pipe setup_memory create_buffer map_created map_memory
setup_pipe-SameSizes env in_side s b t e = ground arith
setup_pipe-SameSizes env out_side s b t e = ground arith

setup_out-sizes :
    (env : Env) (p : Option Ref) (s t : Input)
    → setup_out env p s ≡ some (true, t)
    → ((vars t).in_pipe.report_size ≡ env.dictionary_u64 p max_output_report_size)
      × ((vars t).out_pipe.report_size ≡ (vars s).out_pipe.report_size)
unfolding setup_out
setup_out-sizes env p s t e =
    let (b, u, ran, left) = >>=-eq-some (setup_pipe env out_side) _ s e in
    ground (arith, setup_pipe-SameSizes env out_side s b u ran, left)

-- When `SetupPipes` has set up both pipes, the `IN` pipe has the size of output reports, and the
-- `OUT` pipe has still the size that it had before.
pub setup_both-sizes :
    (env : Env) (p : Option Ref) (s t : Input)
    → setup_both env p s ≡ some (true, t)
    → ((vars t).in_pipe.report_size ≡ env.dictionary_u64 p max_output_report_size)
      × ((vars t).out_pipe.report_size ≡ (vars s).out_pipe.report_size)
unfolding setup_both
setup_both-sizes env p s t e =
    let (b, u, ran, left) = >>=-eq-some (setup_pipe env in_side) _ s e in after b u ran left
  where
    after :
        (b : Bool) (u : Input)
        → setup_pipe env in_side s ≡ some (b, u)
        → (if not b
              then pure false
              else (set_report_size env p max_input_report_size >> setup_out env p))
            u
          ≡ some (true, t)
        → ((vars t).in_pipe.report_size ≡ env.dictionary_u64 p max_output_report_size)
          × ((vars t).out_pipe.report_size ≡ (vars s).out_pipe.report_size)
    after false u ran left = absurd (ground (arith, left))
    after true u ran left =
        let (_, w, changed, rest) =
          >>=-eq-some (set_report_size env p max_input_report_size) (λ _. setup_out env p) u left in
        ground (
          arith,
          setup_pipe-SameSizes env in_side s true u ran,
          changed,
          setup_out-sizes env p w t rest,
        )
