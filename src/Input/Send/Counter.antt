-- ===== src/Input/Send/Counter.antt =====
-- The counter in the packets of a run of `SendInterruptData`.
use vendor_specific_usbdrive.Base.{
  >>=-ok, ◌∙◌, ℕ, ◌+◌, ◌%◌, ◌≡◌, ◌≤◌, ◌<◌, refl, some, List, [], ◌∷◌, arith, length, take, set, M,
  pure, ◌>>=◌,
}
use vendor_specific_usbdrive.Kit.{Ref}
use vendor_specific_usbdrive.Input.State.{Ivars, Event, transmit, Input, Env}
use vendor_specific_usbdrive.Input.Send.{send_interrupt_data, next_counter, with_out_memory}
use vendor_specific_usbdrive.Input.Send.Laws.{
  HasOut, packet, sent, out_memory, sent-HasOut, length-out_memory, send_interrupt_data_sends,
}

-- The packets one after the other, whatever the calls return.
unfoldable pub send_each : Env → List (List ℕ) → M Input (Unit {0})
send_each env [] = pure tt
send_each env (p ∷ ps) = do ret ← send_interrupt_data env p (length p); send_each env ps

-- Each packet has the bytes up to its counter, and fits the memory.
abbrev pub Fits : ℕ → List (List ℕ) → Type 0
Fits room [] = Unit {0}
Fits room (p ∷ ps) = (2 < length p) × (length p ≤ room) × Fits room ps

-- The log behind packets under the numbers `first`, `first + 1`, …, modulo 256.
abbrev pub numbered : Ref → ℕ → List (List ℕ) → List Event → List Event
numbered pipe first [] log = log
numbered pipe first (p ∷ ps) log =
    numbered pipe (first + 1) ps (transmit pipe (set p 2 (first % 256)) ∷ log)

pub length-le_refl {ℓ} : {A : Type ℓ} (xs : List A) → length xs ≤ length xs
length-le_refl xs = omega arith

take_all {ℓ} : {A : Type ℓ} (xs : List A) → take (length xs) xs ≡ xs
take_all [] = refl
take_all (x ∷ xs) = rw (take_all xs)

pub numbered-packet :
    (pipe : Ref) (ps : List (List ℕ)) (p : List ℕ) (log : List Event) (first counter : ℕ)
    → counter ≡ first % 256
    → numbered pipe (first + 1) ps (transmit pipe (packet p (length p) counter) ∷ log)
      ≡ numbered pipe first (p ∷ ps) log
numbered-packet pipe ps p log first counter e = rw (take_all p, e)

module _ (env : Env) where
  -- Over a mapped `OUT` pipe, a run of packets that fit it succeeds without undefined behaviour
  -- whatever the transfers return, and sends each packet once and in order, with its bytes but for
  -- byte 2; there the packets have consecutive counters, modulo 256, from the first one on.
  pub send_each-numbered :
      (ps : List (List ℕ)) (first : ℕ) (s : Input) (v : Ivars) (pipe : Ref) (memory : List ℕ)
      → HasOut s v pipe memory
      → v.out_counter ≡ first % 256
      → Fits (length memory) ps
      → (s' : Input) × (send_each env ps s ≡ some (tt, s'))
        × (s'.log ≡ numbered pipe first ps s.log)
  unfolding send_each
  send_each-numbered [] first s v pipe memory h c f = (s, refl, refl)
  send_each-numbered (p ∷ ps) first s v pipe memory h c f =
      let c' : (v.out_counter + 1) % 256 ≡ (first + 1) % 256 = omega arith in
      let m = out_memory memory p (length p) v.out_counter in
      let e : length m ≡ length memory =
        length-out_memory p (length p) memory v.out_counter (length-le_refl p) f.1 in
      let (s', ran, logged) =
        send_each-numbered ps (first + 1) (sent s v pipe memory p (length p))
          (with_out_memory v m (next_counter v.out_counter)) pipe m
          (sent-HasOut p (length p) h (length-le_refl p) f.1) c' (rw e f.2) in
      (
        s',
        >>=-ok (λ t. send_interrupt_data env p (length p) t) (λ ret. send_each env ps) s
              (send_interrupt_data_sends env s v pipe memory h p (length p) f.0 (length-le_refl p)
                f.1)
            ∙ ran,
        logged ∙ numbered-packet pipe ps p s.log first v.out_counter c,
      )
