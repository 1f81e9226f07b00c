-- ===== src/Client/Licensing/Effect.antt =====
-- What a license call does to the packets that arrive later.
use vendor_specific_usbdrive.Base.{
  ℕ, ◌%◌, ◌^◌, ◌≡◌, ◌≢◌, refl, true, false, Option, none, some, List, ◌∷◌, arith, ==_ne,
}
use vendor_specific_usbdrive.Kit.{Ref, success}
use vendor_specific_usbdrive.Packets.{read_header, ReportHeader}
use vendor_specific_usbdrive.Input.State.{Input, Env, report, request}
use vendor_specific_usbdrive.Input.Receive.Reaction.{kind_of, button_packet, after_got_data}
use vendor_specific_usbdrive.Input.Receive.Laws.{got_data_lem}
use vendor_specific_usbdrive.Input.Session.{
  Signal, arrive, completed, step, run, completions, HasHeaders, StaysOff,
}
use vendor_specific_usbdrive.Input.Session.Ready.{IsReady, arrive-IsLinked}
use vendor_specific_usbdrive.Input.Session.Off.{IsQuiet, run-IsQuiet}
use vendor_specific_usbdrive.Client.State.{System, ClientEnv, MethodDispatch, update}
use vendor_specific_usbdrive.Client.Licensing.{external_method}
use vendor_specific_usbdrive.Client.Licensing.Laws.{
  ChecksArguments, licensing_arguments, attached, with_enabled, external_method-licensing,
}

with_enabled-IsReady : (i : Input) (r : IsReady i) (on : _) → IsReady (with_enabled i r.v on)
with_enabled-IsReady i r on = record {
  v = record (r.v) { enabled = on };
  in_ref = r.in_ref;
  out_ref = r.out_ref;
  out_bytes = r.out_bytes;
  has_out = record {
    loaded = refl;
    piped = r.has_out.piped;
    mapped = r.has_out.mapped;
    measured = r.has_out.measured;
  };
  in_piped = r.in_piped;
  out_room = r.out_room;
  byte = r.byte;
}

IsQuiet-log : {i j t : Input} {n : ℕ} → j.log ≡ i.log → IsQuiet j t n → IsQuiet i t n
IsQuiet-log e q = record {
  ready = q.ready;
  off = q.off;
  no_report = rw (← e) q.no_report;
  no_answer = rw (← e) q.no_answer;
  requested = rw (← e) q.requested;
}

module _ (env : ClientEnv) (io : Env) (this : Ref) (dispatch : Option MethodDispatch)
    (reference : ℕ) (checks : ChecksArguments env) (s : System) (r : Ref) (i : Input)
    (is_attached : s.clients this ≡ some (attached (some r))) (lives : s.interfaces r ≡ some i)
    (ready : IsReady i) where
  -- With DriverKit's check of the counts: a licensing call with 0, by a client that is attached to
  -- a ready interface, succeeds, and from then on, until a call enables the interface, no sequence
  -- of transfers with at least a header in the memory makes the interface pass
  -- a report to the system or send a packet to the controller; it goes on asking for transfers.
  pub licensing_off :
      (output : ℕ)
      → (s' : System) × (j : Input) × (external_method env this 1
            (licensing_arguments 0 output)
            dispatch
            none
            reference
            s
          ≡ some ((success, licensing_arguments 0 0), s'))
        × (s'.interfaces r ≡ some j)
        × ((xs : List Signal)
            → HasHeaders xs
            → StaysOff xs
            → (t : Input) × (run io xs j ≡ some (tt, t)) × IsQuiet i t (completions xs))
  licensing_off output = (
    _,
    with_enabled i ready.v false,
    external_method-licensing env this dispatch reference checks s r 0 output i ready.v is_attached
        lives ready.has_out.loaded,
    ground arith,
    λ xs h f.
        let j = with_enabled i ready.v false in
        let (t, ran, quiet) = run-IsQuiet io xs j (with_enabled-IsReady i ready false) refl h f in
        (t, ran, IsQuiet-log refl quiet),
  )

  -- With DriverKit's check of the counts: a licensing call with a number that is not 0, by a client
  -- that is attached to a ready interface, succeeds, and the next button packet is reported to the
  -- system: the completed transfer leaves just a report and a request for the next transfer.
  pub licensing_on :
      (input output count time : ℕ) (bytes : List ℕ) (header : ReportHeader)
      → input ≢ 0
      → read_header bytes ≡ some header
      → kind_of header ≡ button_packet
      → (s' : System) × (j : Input) × (t : Input) × (external_method env this 1
            (licensing_arguments input output)
            dispatch
            none
            reference
            s
          ≡ some ((success, licensing_arguments input 1), s'))
        × (s'.interfaces r ≡ some j)
        × (step io (completed success count time bytes) j ≡ some (tt, t))
        × (t.log
            ≡ request ready.in_ref ready.v.in_pipe.memory.buffer
                (ready.v.in_pipe.memory.length % 2 ^ 32)
                ready.v.got_data_action
              ∷ report time ready.v.in_pipe.memory.buffer count
              ∷ i.log)
  unfolding step arrive arrive-IsLinked with_enabled-IsReady
  licensing_on input output count time bytes header ne e k =
      let j = with_enabled i ready.v true in
      let l = arrive-IsLinked bytes header (with_enabled-IsReady i ready true) e in
      (
        record s { interfaces = update s.interfaces r j },
        j,
        after_got_data io (arrive bytes j) l success count time,
        rw (==_ne input 0 ne) at (
            external_method-licensing env this dispatch reference checks s r input output i ready.v
              is_attached lives ready.has_out.loaded),
        ground arith,
        got_data_lem io (arrive bytes j) l count time success,
        ground arith,
      )
