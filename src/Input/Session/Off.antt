-- ===== src/Input/Session/Off.antt =====
-- A disabled interface.
use vendor_specific_usbdrive.Base.{
  ℕ, ◌+◌, ◌≡◌, refl, ◌∙◌, false, some, List, [], ◌∷◌, arith, >>=-ok,
}
use vendor_specific_usbdrive.Kit.{KernReturn}
use vendor_specific_usbdrive.Input.State.{Input, Env}
use vendor_specific_usbdrive.Input.Receive.{set_enable}
use vendor_specific_usbdrive.Input.Receive.Reaction.{IsLinked, after_got_data}
use vendor_specific_usbdrive.Input.Receive.Laws.{got_data_lem}
use vendor_specific_usbdrive.Input.Session.{
  Signal, completed, licensed, arrive, step, run, requests, reports, transmits, completion,
  completions, HasHeader, HasHeaders, LeavesOff, StaysOff, enabled_of,
}
use vendor_specific_usbdrive.Input.Session.Laws.{set_enable-Progress}
use vendor_specific_usbdrive.Input.Session.Ready.{
  IsReady, read_header-some, arrive-IsLinked, after_got_data-Progress,
}

-- From `s` to `t`, disabled, in `n` completed transfers.
pub record IsQuiet (s t : Input) (n : ℕ) : Type 0 where
  pub ready : IsReady t
  pub off : enabled_of t ≡ false
  pub no_report : reports t.log ≡ reports s.log
  pub no_answer : transmits t.log ≡ transmits s.log
  pub requested : requests t.log ≡ requests s.log + n

module _ (env : Env) where
  completed-IsQuiet :
      (status : KernReturn) (count time : ℕ) (bytes : List ℕ) (s : Input)
      (l : IsLinked (arrive bytes s))
      → l.v.enabled ≡ false
      → IsReady s
      → IsReady (after_got_data env (arrive bytes s) l status count time)
      → IsQuiet s (after_got_data env (arrive bytes s) l status count time) 1
  unfolding arrive
  completed-IsQuiet status count time bytes s l e r ready = record {
    ready = ready;
    off = ground (arith, e, r.has_out.loaded, l.has_out.loaded);
    no_report = ground (arith, e, r.has_out.loaded);
    no_answer = ground (arith, e, r.has_out.loaded);
    requested = ground (arith, e, r.has_out.loaded);
  }

  step-IsQuiet :
      (x : Signal) (s : Input)
      → IsReady s
      → enabled_of s ≡ false
      → HasHeader x
      → LeavesOff x
      → (t : Input) × (step env x s ≡ some (tt, t)) × IsQuiet s t (completion x)
  unfolding step arrive-IsLinked set_enable
  step-IsQuiet (licensed on) s r e h f = (
    set_enable on s,
    refl,
    record {
      ready = (set_enable-Progress on r).ready;
      off = ground (arith, r.has_out.loaded);
      no_report = ground (arith, r.has_out.loaded);
      no_answer = ground (arith, r.has_out.loaded);
      requested = ground (arith, r.has_out.loaded);
    },
  )
  step-IsQuiet (completed status count time bytes) s r e h f =
      let (header, k) = read_header-some bytes h in
      let l = arrive-IsLinked bytes header r k in
      (
        after_got_data env (arrive bytes s) l status count time,
        got_data_lem env (arrive bytes s) l count time status,
        completed-IsQuiet status count time bytes s l (ground (arith, r.has_out.loaded)) r
            (after_got_data-Progress env (arrive bytes s) l r.byte count time status).ready,
      )

  -- While a ready interface is disabled and no license call enables it, any sequence of completed
  -- transfers, with at least a header in the memory, passes no report to the system and sends no
  -- packet to the controller; it still asks for the next transfer once after each, and ends ready
  -- and disabled.
  pub run-IsQuiet :
      (xs : List Signal) (s : Input)
      → IsReady s
      → enabled_of s ≡ false
      → HasHeaders xs
      → StaysOff xs
      → (t : Input) × (run env xs s ≡ some (tt, t)) × IsQuiet s t (completions xs)
  unfolding run
  run-IsQuiet [] s r e h f = (
    s,
    refl,
    record { ready = r; off = e; no_report = refl; no_answer = refl; requested = omega arith },
  )
  run-IsQuiet (x ∷ xs) s r e h f =
      let (t, stepped, first) = step-IsQuiet x s r e h.0 f.0 in
      let (u, ran, rest) = run-IsQuiet xs t first.ready first.off h.1 f.1 in
      (
        u,
        >>=-ok (step env x) (λ _. run env xs) s stepped ∙ ran,
        record {
          ready = rest.ready;
          off = rest.off;
          no_report = rest.no_report ∙ first.no_report;
          no_answer = rest.no_answer ∙ first.no_answer;
          requested = omega (arith, first.requested, rest.requested);
        },
      )
