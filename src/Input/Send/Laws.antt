-- ===== src/Input/Send/Laws.antt =====
-- What `SendInterruptData` sends, and when it refuses.
use vendor_specific_usbdrive.Base.{
  refl, sym, ◌∙◌, length-set, ℕ, ◌≡◌, ◌≤◌, ◌<◌, some, List, ◌∷◌, ◌++◌, arith, length, take, drop,
  set, length-take-append-drop, take-set-append,
}
use vendor_specific_usbdrive.Kit.{Ref, bad_argument}
use vendor_specific_usbdrive.Input.State.{Ivars, Event, transmit, Input, Env}
use vendor_specific_usbdrive.Input.Send.{send_interrupt_data, next_counter, with_out_memory}

-- The `OUT` pipe and its mapped memory.
pub record HasOut (s : Input) (v : Ivars) (pipe : Ref) (memory : List ℕ) : Type 0 where
  pub loaded : s.ivars ≡ some v
  pub piped : v.out_pipe.pipe ≡ some pipe
  pub mapped : v.out_pipe.memory.address ≡ some memory
  pub measured : v.out_pipe.memory.length ≡ length memory

-- It is about the stored variables alone.
pub HasOut-log :
    {s : Input} {v : Ivars} {pipe : Ref} {memory : List ℕ} (log : List Event)
    → HasOut s v pipe memory
    → HasOut (record s { log = log }) v pipe memory
HasOut-log log h = record {
  loaded = h.loaded;
  piped = h.piped;
  mapped = h.mapped;
  measured = h.measured;
}

-- The packet that goes out for some bytes under a counter.
abbrev pub packet : List ℕ → ℕ → ℕ → List ℕ
packet bytes size counter = set (take size bytes) 2 counter

-- The memory behind the buffer after that.
abbrev pub out_memory : List ℕ → List ℕ → ℕ → ℕ → List ℕ
out_memory memory bytes size counter = set (take size bytes ++ drop size memory) 2 counter

abbrev pub sent : Input → Ivars → Ref → List ℕ → List ℕ → ℕ → Input
sent s v pipe memory bytes size = record {
  ivars =
      some (
        with_out_memory v (out_memory memory bytes size v.out_counter)
          (next_counter v.out_counter));
  log = transmit pipe (packet bytes size v.out_counter) ∷ s.log;
}

pub length-out_memory :
    (bytes : List ℕ) (size : ℕ) (memory : List ℕ) (counter : ℕ)
    → size ≤ length bytes
    → size ≤ length memory
    → length (out_memory memory bytes size counter) ≡ length memory
length-out_memory bytes size memory counter h k =
    length-set _ 2 counter ∙ length-take-append-drop size bytes memory h k

-- The pipe is as well set up as before.
pub sent-HasOut :
    {s : Input} {v : Ivars} {pipe : Ref} {memory : List ℕ} (bytes : List ℕ) (size : ℕ)
    → HasOut s v pipe memory
    → size ≤ length bytes
    → size ≤ length memory
    → HasOut
        (sent s v pipe memory bytes size)
        (with_out_memory v
          (out_memory memory bytes size v.out_counter)
          (next_counter v.out_counter))
        pipe
        (out_memory memory bytes size v.out_counter)
sent-HasOut {memory = memory} bytes size h k l = record {
  loaded = refl;
  piped = h.piped;
  mapped = refl;
  measured = h.measured ∙ sym (length-out_memory bytes size memory _ k l);
}

module _ (env : Env) (s : Input) (v : Ivars) (pipe : Ref) (memory : List ℕ)
    (has : HasOut s v pipe memory) where
  -- Over a mapped `OUT` pipe, a packet of at least three bytes that fits the memory is sent: its
  -- first bytes go out once, byte 2 replaced by the counter, and the code of the transfer is
  -- returned. They stand in the memory then, whose rest is as before, and the counter is one
  -- further, modulo 256.
  pub send_interrupt_data_sends :
      (bytes : List ℕ) (size : ℕ)
      → 2 < size
      → size ≤ length bytes
      → size ≤ length memory
      → send_interrupt_data env bytes size s
        ≡ some (
          (env.io s.log pipe (packet bytes size v.out_counter)).0,
          sent s v pipe memory bytes size,
        )
  unfolding send_interrupt_data
  send_interrupt_data_sends bytes size h k l = ground (
    arith,
    length-take-append-drop size bytes memory,
    take-set-append size 2 bytes (drop size memory) v.out_counter,
  )

-- A packet that is longer than the memory of the `OUT` pipe is refused: the code is
-- `kIOReturnBadArgument`, nothing is sent and the state, the counter included, is as before.
pub send_interrupt_data_refuses :
    (env : Env) (s : Input) (v : Ivars) (bytes : List ℕ) (size : ℕ)
    → s.ivars ≡ some v
    → v.out_pipe.memory.length < size
    → send_interrupt_data env bytes size s ≡ some (bad_argument, s)
unfolding send_interrupt_data
send_interrupt_data_refuses env s v bytes size e h = ground arith
