-- ===== src/Input/Service/Refines.antt =====
-- The interface implements the service.
use vendor_specific_usbdrive.Base.{
  ℕ, subst, ◌≡◌, refl, ◌∙◌, Bool, true, false, some, List, [], ◌∷◌, arith, ◌&&◌, and_false, if-elim,
  if-elim_eq, >>=-ok,
}
use vendor_specific_usbdrive.Kit.{KernReturn, is_success}
use vendor_specific_usbdrive.Packets.{ReportHeader, read_header}
use vendor_specific_usbdrive.Input.State.{Input, Env}
use vendor_specific_usbdrive.Input.Receive.{set_enable}
use vendor_specific_usbdrive.Input.Receive.Reaction.{
  Kind, IsLinked, kind_of, button_packet, guide_packet, foreign_packet, reported, answered,
  reaction, rearmed, report_accepted, after_got_data,
}
use vendor_specific_usbdrive.Input.Receive.Laws.{got_data_lem}
use vendor_specific_usbdrive.Input.Session.{
  Signal, completed, licensed, arrive, step, run, HasHeader, HasHeaders, enabled_of,
}
use vendor_specific_usbdrive.Input.Session.Laws.{set_enable-Progress}
use vendor_specific_usbdrive.Input.Session.Ready.{
  IsReady, read_header-some, arrive-IsLinked, after_got_data-Progress,
}
use vendor_specific_usbdrive.Input.Service.{
  Serves, ignores, passes_over, tells_buttons, tells_guide, answers_guide, switches, Served, idle,
  serve, view, Service, listening, telling, answering,
}

module _ (env : Env) (status : KernReturn) (count time : ℕ) (bytes : List ℕ) (s : Input)
    (r : IsReady s) (h : ReportHeader) (e : read_header bytes ≡ some h) where
  abbrev linked : IsLinked (arrive bytes s)
  unfolding arrive-IsLinked
  linked = arrive-IsLinked bytes h r e

  abbrev ServesTo : Input → Type 0
  ServesTo t = Serves (completed status count time bytes) (view s) (view t)

  to_view :
      {n : Service} (t : Input)
      → n ≡ view t
      → Serves (completed status count time bytes) (view s) n
      → ServesTo t
  to_view t f served = subst (Serves (completed status count time bytes) (view s)) f served

  silent-Serves :
      Serves (completed status count time bytes) (view s) (listening (view s))
      → ServesTo (rearmed env (arrive bytes s) linked (arrive bytes s))
  unfolding arrive
  silent-Serves served =
      to_view (rearmed env (arrive bytes s) linked (arrive bytes s))
        (ground (arith, r.has_out.loaded)) served

  reported-Serves :
      Serves (completed status count time bytes) (view s) (listening (telling time count (view s)))
      → ServesTo
          (rearmed env (arrive bytes s) linked (reported env (arrive bytes s) linked count time))
  unfolding arrive
  reported-Serves served =
      to_view
        (rearmed env (arrive bytes s) linked (reported env (arrive bytes s) linked count time))
        (ground (arith, r.has_out.loaded)) served

  answered-Serves :
      Serves
        (completed status count time bytes)
        (view s)
        (listening (answering (telling time count (view s))))
      → ServesTo
          (rearmed env (arrive bytes s) linked (answered env (arrive bytes s) linked count time))
  unfolding arrive
  answered-Serves served =
      to_view
        (rearmed env (arrive bytes s) linked (answered env (arrive bytes s) linked count time))
        (ground (arith, r.has_out.loaded)) served

  reaction-Serves :
      (k : Kind)
      → kind_of h ≡ k
      → is_success status && enabled_of s ≡ true
      → ServesTo
          (rearmed env (arrive bytes s) linked (reaction env (arrive bytes s) linked k count time))
  reaction-Serves button_packet f on =
      reported-Serves (tells_buttons status count time bytes (view s) h on e f)
  reaction-Serves foreign_packet f on =
      silent-Serves (passes_over status count time bytes (view s) h e f)
  reaction-Serves (guide_packet true) f on =
      if-elim (λ t. ServesTo (rearmed env (arrive bytes s) linked t))
        (report_accepted env (arrive bytes s) linked count time && true)
        (answered-Serves (answers_guide status count time bytes (view s) h on e f))
        (reported-Serves (tells_guide status count time bytes (view s) h true on e f))
  reaction-Serves (guide_packet false) f on =
      rw (and_false (report_accepted env (arrive bytes s) linked count time))
        (reported-Serves (tells_guide status count time bytes (view s) h false on e f))

  got_data-Serves : ServesTo (after_got_data env (arrive bytes s) linked status count time)
  unfolding arrive-IsLinked
  got_data-Serves =
      if-elim_eq (λ t. ServesTo (rearmed env (arrive bytes s) linked t))
        (is_success status && r.v.enabled)
        (λ on. reaction-Serves (kind_of h) refl (ground (arith, on, r.has_out.loaded)))
        (λ off.
          silent-Serves
            (ignores status count time bytes (view s) (ground (arith, off, r.has_out.loaded))))

switched-Serves :
    (on : Bool) (s : Input) → IsReady s → Serves (licensed on) (view s) (view (set_enable on s))
unfolding set_enable
switched-Serves on s r =
    subst (Serves (licensed on) (view s)) (ground (arith, r.has_out.loaded)) (switches on (view s))

module _ (env : Env) where
  step-Serves :
      (x : Signal) (s : Input)
      → IsReady s
      → HasHeader x
      → (t : Input) × (step env x s ≡ some (tt, t)) × Serves x (view s) (view t) × IsReady t
  unfolding step arrive-IsLinked
  step-Serves (licensed on) s r h =
      (set_enable on s, refl, switched-Serves on s r, (set_enable-Progress on r).ready)
  step-Serves (completed status count time bytes) s r h =
      let (header, e) = read_header-some bytes h in
      let l = arrive-IsLinked bytes header r e in
      (
        after_got_data env (arrive bytes s) l status count time,
        got_data_lem env (arrive bytes s) l count time status,
        got_data-Serves env status count time bytes s r header e,
        (after_got_data-Progress env (arrive bytes s) l r.byte count time status).ready,
      )

  -- From a ready interface, every run of completed transfers, with at least a header in the memory,
  -- and of license calls ends without undefined behaviour in a ready interface, and is a run of the
  -- service: as the interface and the service see the flag, the counter and the outputs, each
  -- signal makes a step that the service allows.
  pub run-Served :
      (xs : List Signal) (s : Input)
      → IsReady s
      → HasHeaders xs
      → (t : Input) × (run env xs s ≡ some (tt, t)) × Served xs (view s) (view t) × IsReady t
  unfolding run
  run-Served [] s r h = (s, refl, idle (view s), r)
  run-Served (x ∷ xs) s r h =
      let (t, stepped, served, ready) = step-Serves x s r h.0 in
      let (u, ran, rest, last) = run-Served xs t ready h.1 in
      (u, >>=-ok (step env x) (λ _. run env xs) s stepped ∙ ran, serve served rest, last)
