-- ===== src/Input/Session/Ready.antt =====
-- An interface that is ready for packets, and what one completed transfer makes of it.
use vendor_specific_usbdrive.Base.{
  ℕ, ◌+◌, ◌%◌, ◌≤◌, ◌<◌, ◌≡◌, refl, some, List, [], ◌∷◌, length, arith, if-elim, ◌&&◌,
}
use vendor_specific_usbdrive.Kit.{Ref, KernReturn, is_success}
use vendor_specific_usbdrive.Packets.{ReportHeader, read_header, guide_response_bytes}
use vendor_specific_usbdrive.Input.State.{Ivars, Input, Env}
use vendor_specific_usbdrive.Input.Send.Laws.{
  HasOut, HasOut-log, sent-HasOut, length-out_memory, out_memory,
}
use vendor_specific_usbdrive.Input.Send.{with_out_memory, next_counter}
use vendor_specific_usbdrive.Input.Receive.{guide_response}
use vendor_specific_usbdrive.Input.Receive.Reaction.{
  IsLinked, Kind, button_packet, guide_packet, foreign_packet, kind_of, reaction, reported,
  answered, report_accepted, rearmed, after_got_data,
}
use vendor_specific_usbdrive.Input.Session.{
  with_in_memory, arrive, requests, reports, transmits, counter_of,
}

-- Both pipes are set up, the memory of the `OUT` pipe has room for an answer, and the counter is
-- a byte.
pub record IsReady (s : Input) : Type 0 where
  pub v : Ivars
  pub in_ref : Ref
  pub out_ref : Ref
  pub out_bytes : List ℕ
  pub has_out : HasOut s v out_ref out_bytes
  pub in_piped : v.in_pipe.pipe ≡ some in_ref
  pub out_room : 9 ≤ length out_bytes
  pub byte : v.out_counter < 256

-- From `s` to `t` in `n` completed transfers, with so many reports and answers.
pub record Gains (s t : Input) (n told answers : ℕ) : Type 0 where
  pub requested : requests t.log ≡ requests s.log + n
  pub reported_once : reports t.log ≡ reports s.log + told
  pub transmitted : transmits t.log ≡ transmits s.log + answers
  pub told_le : told ≤ n
  pub answers_le : answers ≤ told
  pub counted : counter_of t ≡ (counter_of s + answers) % 256

pub record Progress (s t : Input) (n : ℕ) : Type 0 where
  pub ready : IsReady t
  pub told : ℕ
  pub answers : ℕ
  pub gains : Gains s t n told answers

pub read_header-some :
    (bytes : List ℕ) → 4 ≤ length bytes → (h : ReportHeader) × (read_header bytes ≡ some h)
unfolding read_header
read_header-some (t ∷ v ∷ c ∷ s ∷ rest) h = (_, refl)
read_header-some [] h = absurd (omega arith)
read_header-some (t ∷ []) h = absurd (omega arith)
read_header-some (t ∷ v ∷ []) h = absurd (omega arith)
read_header-some (t ∷ v ∷ c ∷ []) h = absurd (omega arith)

arrive-HasOut :
    {s : Input} (bytes : List ℕ) (r : IsReady s)
    → HasOut (arrive bytes s) (with_in_memory r.v bytes) r.out_ref r.out_bytes
unfolding arrive
arrive-HasOut bytes r = ground (arith, r.has_out)

-- The transfer has filled the memory.
unfoldable pub arrive-IsLinked :
    {s : Input} (bytes : List ℕ) (header : ReportHeader)
    → IsReady s
    → read_header bytes ≡ some header
    → IsLinked (arrive bytes s)
unfolding arrive-HasOut
arrive-IsLinked bytes header r e = record {
  v = with_in_memory r.v bytes;
  in_ref = r.in_ref;
  out_ref = r.out_ref;
  in_bytes = bytes;
  out_bytes = r.out_bytes;
  header = header;
  has_out = arrive-HasOut bytes r;
  in_piped = r.in_piped;
  in_mapped = refl;
  readable = e;
  out_room = r.out_room;
}

module _ (env : Env) (s : Input) (l : IsLinked s) (byte : l.v.out_counter < 256)
    (count time : ℕ) where
  linked-IsReady : (t : Input) → t.ivars ≡ s.ivars → IsReady t
  linked-IsReady t e = record {
    v = l.v;
    in_ref = l.in_ref;
    out_ref = l.out_ref;
    out_bytes = l.out_bytes;
    has_out = ground (arith, l.has_out);
    in_piped = l.in_piped;
    out_room = l.out_room;
    byte = byte;
  }

  answered-IsReady : IsReady (rearmed env s l (answered env s l count time))
  answered-IsReady =
      let answer = guide_response_bytes guide_response in
      let memory = out_memory l.out_bytes answer 9 l.v.out_counter in
      record {
        v = with_out_memory l.v memory (next_counter l.v.out_counter);
        in_ref = l.in_ref;
        out_ref = l.out_ref;
        out_bytes = memory;
        has_out = HasOut-log (rearmed env s l (answered env s l count time)).log (
            sent-HasOut answer 9 (HasOut-log (reported env s l count time).log l.has_out)
              (omega arith) l.out_room);
        in_piped = l.in_piped;
        out_room = omega (
          arith,
          l.out_room,
          length-out_memory answer 9 l.out_bytes l.v.out_counter (omega arith) l.out_room,
        );
        byte = omega arith;
      }

  silent-Progress : Progress s (rearmed env s l s) 1
  silent-Progress = record {
    ready = linked-IsReady _ refl;
    told = 0;
    answers = 0;
    gains = ground (arith, l.has_out.loaded);
  }

  reported-Progress : Progress s (rearmed env s l (reported env s l count time)) 1
  reported-Progress = record {
    ready = linked-IsReady _ refl;
    told = 1;
    answers = 0;
    gains = ground (arith, l.has_out.loaded);
  }

  answered-Progress : Progress s (rearmed env s l (answered env s l count time)) 1
  answered-Progress = record {
    ready = answered-IsReady;
    told = 1;
    answers = 1;
    gains = ground (arith, l.has_out.loaded);
  }

  reaction-Progress : (k : Kind) → Progress s (rearmed env s l (reaction env s l k count time)) 1
  reaction-Progress button_packet = reported-Progress
  reaction-Progress (guide_packet wants_answer) =
      if-elim (λ t. Progress s (rearmed env s l t) 1)
        (report_accepted env s l count time && wants_answer) answered-Progress reported-Progress
  reaction-Progress foreign_packet = silent-Progress

  pub after_got_data-Progress :
      (status : KernReturn) → Progress s (after_got_data env s l status count time) 1
  after_got_data-Progress status =
      if-elim (λ t. Progress s (rearmed env s l t) 1) (is_success status && l.v.enabled)
        (reaction-Progress (kind_of l.header)) silent-Progress
