-- ===== src/Input/Receive/Laws.antt =====
-- What `GotData` does, on every path.
use vendor_specific_usbdrive.Base.{ℕ, ◌≡◌, some, arith}
use vendor_specific_usbdrive.Kit.{KernReturn}
use vendor_specific_usbdrive.Packets.{guide_response_bytes}
use vendor_specific_usbdrive.Input.State.{Input, Env}
use vendor_specific_usbdrive.Input.Send.Laws.{HasOut-log, send_interrupt_data_sends}
use vendor_specific_usbdrive.Input.Receive.{guide_response, dispatch_report, got_data}
use vendor_specific_usbdrive.Input.Receive.Reaction.{
  IsLinked, kind_of, reaction, reported, after_got_data,
}

module _ (env : Env) (s : Input) (l : IsLinked s) (count time : ℕ) where
  dispatch_report_lem :
      dispatch_report env l.in_bytes count time s
      ≡ some (tt, reaction env s l (kind_of l.header) count time)
  unfolding dispatch_report
  dispatch_report_lem = ground (
    arith,
    send_interrupt_data_sends env (reported env s l count time) l.v l.out_ref l.out_bytes
        (HasOut-log _ l.has_out) (guide_response_bytes guide_response) 9,
  )

  -- Over a linked interface `GotData` returns without undefined behaviour for every status, count
  -- and packet and every answer of the frameworks, and leaves exactly the state that the packet's
  -- kind calls for: nothing is done if the status is an error or the interface is disabled; else a
  -- button or guide packet is reported, an accepted guide packet of version 0x30 is answered, and
  -- any other packet is passed over. Last, the next transfer is asked for, on every path.
  pub got_data_lem :
      (status : KernReturn)
      → got_data env status count time s ≡ some (tt, after_got_data env s l status count time)
  unfolding got_data
  got_data_lem status = ground (arith, dispatch_report_lem)
