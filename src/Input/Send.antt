-- ===== src/Input/Send.antt =====
-- `SendInterruptData`: a packet to the controller, under the next counter.
pub mod Laws
pub mod Counter
pub mod Fitting
use vendor_specific_usbdrive.Base.{
  ℕ, ◌+◌, ◌%◌, ◌^◌, some, List, ◌++◌, ltb, leb, ◌&&◌, if◌then◌else◌, length, take, drop, set, M,
  pure, fault, deref, ◌>>=◌, ◌>>◌,
}
use vendor_specific_usbdrive.Kit.{Ref, KernReturn, bad_argument}
use vendor_specific_usbdrive.Input.State.{
  Ivars, transmit, Input, Env, load_ivars, store_ivars, emit, ask,
}

-- `memcpy(memory, data, size)`: both have to have the bytes.
abbrev pub memcpy : List ℕ → List ℕ → ℕ → M Input (List ℕ)
memcpy memory bytes size =
    if leb size (length bytes) && leb size (length memory)
    then pure (take size bytes ++ drop size memory)
    else fault

-- `memory[i] = v`.
abbrev pub write_byte : List ℕ → ℕ → ℕ → M Input (List ℕ)
write_byte memory i v = if ltb i (length memory) then pure (set memory i v) else fault

abbrev pub next_counter : ℕ → ℕ
next_counter c = (c + 1) % 2 ^ 8

abbrev pub with_out_memory : Ivars → List ℕ → ℕ → Ivars
with_out_memory v memory counter = record v {
  out_pipe = record (v.out_pipe) { memory = record (v.out_pipe.memory) { address = some memory } };
  out_counter = counter;
}

-- `IO(buffer, size, …)` on the `OUT` pipe: it sends the first bytes of the mapped buffer.
abbrev pub pipe_io : Env → Ref → List ℕ → M Input (KernReturn × ℕ)
pipe_io env pipe bytes = do
  answer ← ask (λ log. env.io log pipe bytes)
  emit (transmit pipe bytes)
  pure answer

-- The number of bytes transferred is only logged.
unfoldable pub send_interrupt_data : Env → List ℕ → ℕ → M Input KernReturn
send_interrupt_data env bytes size = do
  v ← load_ivars
  if ltb v.out_pipe.memory.length size then pure bad_argument else do
    address ← deref v.out_pipe.memory.address
    copied ← memcpy address bytes size
    memory ← write_byte copied 2 v.out_counter
    store_ivars (with_out_memory v memory (next_counter v.out_counter))
    pipe ← deref v.out_pipe.pipe
    (ret, transferred) ← pipe_io env pipe (take size memory)
    pure ret
