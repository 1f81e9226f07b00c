-- ===== src/Input/Receive/Answer.antt =====
-- The answer to a guide packet, as it goes out.
use vendor_specific_usbdrive.Base.{
  ℕ, ◌%◌, ◌^◌, ◌+◌, ◌≡◌, refl, true, none, some, List, [], ◌∷◌, arith, length,
}
use vendor_specific_usbdrive.Kit.{success}
use vendor_specific_usbdrive.Packets.{read_header}
use vendor_specific_usbdrive.Input.State.{Input, Env, request, report, transmit}
use vendor_specific_usbdrive.Input.Receive.{got_data}
use vendor_specific_usbdrive.Input.Receive.Reaction.{
  IsLinked, kind_of, guide_packet, report_accepted, after_got_data,
}
use vendor_specific_usbdrive.Input.Receive.Laws.{got_data_lem}

-- The bytes that a packet has by its own header, the header included.
abbrev pub announced_length : List ℕ → ℕ
announced_length bytes = elim (read_header bytes) [ none ↦ 0 | some h ↦ 4 + h.size ]

module _ (env : Env) (s : Input) (l : IsLinked s) (count time : ℕ) where
  -- On a successful transfer, an enabled interface whose packet is a guide packet of version 0x30
  -- that the system accepts sends one packet: the nine bytes below, under the counter. By its own
  -- header that packet has four bytes more.
  pub got_data-answer :
      l.v.enabled ≡ true
      → kind_of l.header ≡ guide_packet true
      → report_accepted env s l count time ≡ true
      → (t : Input) × (answer : List ℕ) × (got_data env success count time s ≡ some (tt, t))
        × (t.log
            ≡ request l.in_ref l.v.in_pipe.memory.buffer
                (l.v.in_pipe.memory.length % 2 ^ 32)
                l.v.got_data_action
              ∷ transmit l.out_ref answer
              ∷ report time l.v.in_pipe.memory.buffer count
              ∷ s.log)
        × (answer ≡ 0x01 ∷ 0x20 ∷ l.v.out_counter ∷ 0x09 ∷ 0x00 ∷ 0x07 ∷ 0x20 ∷ 0x02 ∷ 0x00 ∷ [])
        × (length answer + 4 ≡ announced_length answer)
  unfolding read_header
  got_data-answer on kind accepted = (
    after_got_data env s l success count time,
    _,
    got_data_lem env s l count time success,
    ground (arith, on, kind, accepted),
    refl,
    refl,
  )
