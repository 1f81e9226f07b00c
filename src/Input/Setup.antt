-- ===== src/Input/Setup.antt =====
-- `SetupPipe` and `SetupPipes`: the speed, the sizes and the buffers of the pipes.
use vendor_specific_usbdrive.Base.{
  ℕ, Bool, true, false, Option, not, ◌==◌, if◌then◌else◌, M, pure, deref, ◌>>=◌, ◌>>◌,
}
use vendor_specific_usbdrive.Kit.{Ref, is_success}
use vendor_specific_usbdrive.Input.State.{
  acquire, release, properties, PropertyKey, max_input_report_size, max_output_report_size, Input,
  Env, Side, in_side, out_side, pipe_of, buffer_of, load_ivars, emit_some, ask, change_pipe,
}

-- `Map`, and the members of `memory` that it fills.
unfoldable pub map_memory : Env → Side → Ref → M Input Bool
map_memory env side buffer = do
  (ret, address, length) ← ask (λ log. env.map_buffer log buffer)
  change_pipe side (λ p. record p { memory = record (p.memory) { length = length } })
  if not (is_success ret) then pure false else do
    change_pipe side (λ p. record p { memory = record (p.memory) { address = address } })
    pure true

-- `CreateIOBuffer`.
unfoldable pub create_buffer : Env → Side → ℕ → M Input Bool
create_buffer env side size = do
  v ← load_ivars
  i ← deref v.interface
  (ret, buffer) ← ask (λ log. env.create_io_buffer log i size (pipe_of side v).memory.buffer)
  change_pipe side (λ p. record p { memory = record (p.memory) { buffer = buffer } })
  if not (is_success ret)
      then pure false
      else do emit_some (acquire (buffer_of side)) buffer; pure true

-- The mapping of the buffer, if there is one.
unfoldable pub map_created : Env → Side → Bool → M Input Bool
map_created env side created =
    if not created
    then pure false
    else do v ← load_ivars; b ← deref (pipe_of side v).memory.buffer; map_memory env side b

-- The buffer of a pipe, and its mapping.
unfoldable pub setup_memory : Env → Side → ℕ → M Input Bool
setup_memory env side size = do created ← create_buffer env side size; map_created env side created

-- The speed, and what follows from it: the interval and the packet size.
unfoldable pub measure_pipe : Env → Side → M Input Bool
measure_pipe env side = do
  v ← load_ivars
  pipe ← deref (pipe_of side v).pipe
  (ret, speed) ← ask (λ log. env.get_speed log pipe (pipe_of side v).speed)
  change_pipe side (λ p. record p { speed = speed })
  if not (is_success ret) then pure false else do
    let interval = env.interval_frames speed (pipe_of side v).descriptor
    change_pipe side (λ p. record p { interval = interval })
    if interval == 0 then pure false else do
      let size = env.max_packet_size speed (pipe_of side v).descriptor
      change_pipe side (λ p. record p { max_packet_size = size })
      pure (not (size == 0))

unfoldable pub setup_pipe : Env → Side → M Input Bool
setup_pipe env side = do
  measured ← measure_pipe env side
  if not measured
      then pure false
      else do v ← load_ivars; setup_memory env side (pipe_of side v).max_packet_size

-- The set-up of both pipes. The second size of reports goes to the `IN` pipe too.
abbrev pub set_report_size : Env → Option Ref → PropertyKey → M Input (Unit {0})
set_report_size env p key =
    change_pipe in_side (λ d. record d { report_size = env.dictionary_u64 p key })

unfoldable pub setup_out : Env → Option Ref → M Input Bool
setup_out env p = do
  result ← setup_pipe env out_side
  if not result then pure false else do set_report_size env p max_output_report_size; pure true

unfoldable pub setup_both : Env → Option Ref → M Input Bool
setup_both env p = do
  result ← setup_pipe env in_side
  if not result then pure false else do set_report_size env p max_input_report_size; setup_out env p

-- The properties are released on every path.
unfoldable pub setup_pipes : Env → M Input Bool
setup_pipes env = do
  (ret, p) ← ask env.copy_properties
  emit_some (acquire properties) p
  result ← if not (is_success ret) then pure false else setup_both env p
  emit_some (release properties) p
  pure result
