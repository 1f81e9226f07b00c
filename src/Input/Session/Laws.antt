-- ===== src/Input/Session/Laws.antt =====
-- What holds over any sequence of signals.
use vendor_specific_usbdrive.Base.{ℕ, ◌+◌, ◌≡◌, refl, ◌∙◌, Bool, some, List, [], ◌∷◌, arith, >>=-ok}
use vendor_specific_usbdrive.Input.State.{Input, Env}
use vendor_specific_usbdrive.Input.Receive.{set_enable}
use vendor_specific_usbdrive.Input.Receive.Reaction.{after_got_data}
use vendor_specific_usbdrive.Input.Receive.Laws.{got_data_lem}
use vendor_specific_usbdrive.Input.Session.{
  Signal, completed, licensed, arrive, step, run, completions, HasHeader, completion, HasHeaders,
}
use vendor_specific_usbdrive.Input.Session.Ready.{
  IsReady, Progress, read_header-some, arrive-IsLinked, after_got_data-Progress,
}

Progress-arrive :
    {s t : Input} {n : ℕ} (bytes : List ℕ)
    → IsReady s
    → Progress (arrive bytes s) t n
    → Progress s t n
unfolding arrive
Progress-arrive bytes r p = record {
  ready = p.ready;
  told = p.told;
  answers = p.answers;
  gains = ground (arith, p.gains, r.has_out.loaded);
}

Progress-trans : {s t u : Input} {m n : ℕ} → Progress s t m → Progress t u n → Progress s u (m + n)
Progress-trans p q = record {
  ready = q.ready;
  told = p.told + q.told;
  answers = p.answers + q.answers;
  gains = omega (arith, p.gains, q.gains);
}

idle-Progress : {s : Input} → IsReady s → Progress s s 0
idle-Progress r = record {
  ready = r;
  told = 0;
  answers = 0;
  gains = ground (arith, r.has_out.loaded, r.byte);
}

pub set_enable-Progress : {s : Input} (on : Bool) → IsReady s → Progress s (set_enable on s) 0
unfolding set_enable
set_enable-Progress on r = record {
  ready = record {
    v = record (r.v) { enabled = on };
    in_ref = r.in_ref;
    out_ref = r.out_ref;
    out_bytes = r.out_bytes;
    has_out = ground (arith, r.has_out);
    in_piped = r.in_piped;
    out_room = r.out_room;
    byte = r.byte;
  };
  told = 0;
  answers = 0;
  gains = ground (arith, r.has_out.loaded, r.byte);
}

module _ (env : Env) where
  step-Progress :
      (x : Signal) (s : Input)
      → IsReady s
      → HasHeader x
      → (t : Input) × (step env x s ≡ some (tt, t)) × Progress s t (completion x)
  unfolding step arrive-IsLinked
  step-Progress (licensed on) s r h = (set_enable on s, refl, set_enable-Progress on r)
  step-Progress (completed status count time bytes) s r h =
      let (header, e) = read_header-some bytes h in
      let l = arrive-IsLinked bytes header r e in
      (
        after_got_data env (arrive bytes s) l status count time,
        got_data_lem env (arrive bytes s) l count time status,
        Progress-arrive bytes r
            (after_got_data-Progress env (arrive bytes s) l r.byte count time status),
      )

  -- From a ready interface every sequence of completed transfers, with any status and any content
  -- of at least a header, and of license calls, runs without undefined behaviour whatever the
  -- frameworks answer, and leaves a ready interface. Each transfer is followed by exactly one
  -- request for the next, and by at most one report to the system; there are at most as many
  -- answers to the controller as reports, and the counter has grown by the number of the answers,
  -- modulo 256.
  pub run-Progress :
      (xs : List Signal) (s : Input)
      → IsReady s
      → HasHeaders xs
      → (t : Input) × (run env xs s ≡ some (tt, t)) × Progress s t (completions xs)
  unfolding run
  run-Progress [] s r h = (s, refl, idle-Progress r)
  run-Progress (x ∷ xs) s r h =
      let (t, stepped, first) = step-Progress x s r h.0 in
      let (u, ran, rest) = run-Progress xs t first.ready h.1 in
      (u, >>=-ok (step env x) (λ _. run env xs) s stepped ∙ ran, Progress-trans first rest)
