-- ===== src/Client/Reads/Outcomes.antt =====
-- What a read leaves of the connection.
use ami.Base.{
  ◌≡◌, refl, sym, ◌∙◌, Bool, true, false, not, ◌&&◌, List, [], ◌∷◌, Option, some, none,
  if◌then◌else◌, Outcome, ok, err, arith,
}
use ami.Client.Framer.{Error, Cause, Category, Dimension, wire_error}
use ami.Client.Reads.{
  Deadline, Link, Happening, happen, run, clear, is_interrupted, ReadFault, is_late, fault_error,
  Reading, failed_read, finished, entered, read,
}

-- No cancellation is pending.
abbrev pub IsQuiet : Link → Type 0
IsQuiet l = l.poked ≡ false

run-IsQuiet :
    (l : Link) (hs : List Happening) → is_interrupted hs ≡ false → IsQuiet l → IsQuiet (run l hs)
unfolding run is_interrupted
run-IsQuiet l [] h q = q
run-IsQuiet l (Happening.poke ∷ hs) h q = absurd (ground (arith, h))
run-IsQuiet l (Happening.frame_started ∷ hs) h q =
    run-IsQuiet (happen l Happening.frame_started) hs h (ground (arith, q))
run-IsQuiet l (Happening.frame_padded ∷ hs) h q =
    run-IsQuiet (happen l Happening.frame_padded) hs h (ground (arith, q))
run-IsQuiet l (Happening.close ∷ hs) h q = run-IsQuiet (happen l Happening.close) hs h q

-- A cancellation keeps its deadline in the past until the read has ended, whatever happens behind it:
-- no start of a frame and no padding takes it back.
poked_stays :
    (l : Link) (hs : List Happening)
    → l.poked ≡ true
    → l.deadline ≡ Deadline.past
    → (run l hs).deadline ≡ Deadline.past
unfolding run
poked_stays l [] p d = d
poked_stays l (Happening.poke ∷ hs) p d = poked_stays (happen l Happening.poke) hs refl refl
poked_stays l (Happening.frame_started ∷ hs) p d =
    poked_stays (happen l Happening.frame_started) hs (ground (arith, p)) (ground (arith, p, d))
poked_stays l (Happening.frame_padded ∷ hs) p d =
    poked_stays (happen l Happening.frame_padded) hs (ground (arith, p)) (ground (arith, p, d))
poked_stays l (Happening.close ∷ hs) p d = poked_stays (happen l Happening.close) hs p d

-- A read that is interrupted ends with its deadline in the past.
run-past :
    (l : Link) (hs : List Happening)
    → is_interrupted hs ≡ true
    → (run l hs).deadline ≡ Deadline.past
unfolding run is_interrupted
run-past l [] h = absurd (ground (arith, h))
run-past l (Happening.poke ∷ hs) h = poked_stays (happen l Happening.poke) hs refl refl
run-past l (Happening.frame_started ∷ hs) h = run-past (happen l Happening.frame_started) hs h
run-past l (Happening.frame_padded ∷ hs) h = run-past (happen l Happening.frame_padded) hs h
run-past l (Happening.close ∷ hs) h = run-past (happen l Happening.close) hs h

-- What a read leaves, by its result.
abbrev pub Leaves : {A : Type 0} → Link → Link × Outcome Error A → Type 0
Leaves l (left, ok a) = IsQuiet left × (left.deadline ≡ Deadline.unset)
Leaves l (left, err (Error.context c)) = IsQuiet left × (left.closed ≡ l.closed)
Leaves l (left, err e) = left.closed ≡ true

abbrev is_context : Error → Bool
is_context (Error.context c) = true
is_context e = false

-- A branch satisfies what both its sides satisfy.
branch :
    {X : Type 0} (P : X → Type 0) (b : Bool) (x y : X)
    → (b ≡ true → P x)
    → (b ≡ false → P y)
    → P (if b then x else y)
branch P true x y f g = f refl
branch P false x y f g = g refl

fault_not_context : (f : ReadFault) → is_context (fault_error f) ≡ false
unfolding wire_error
fault_not_context (ReadFault.wire e) = ground arith
fault_not_context (ReadFault.transport f) = refl

chosen_not_context :
    (b : Bool) (f : ReadFault)
    → is_context
        (if b then Error.protocol Category.limit Dimension.max_partial_frame_age else fault_error f)
      ≡ false
chosen_not_context true f = refl
chosen_not_context false f = fault_not_context f

closed-Leaves :
    (A : Type 0) (l left : Link) (e : Error)
    → is_context e ≡ false
    → left.closed ≡ true
    → Leaves {A = A} l (left, err e)
closed-Leaves A l left (Error.protocol c d) n h = h
closed-Leaves A l left (Error.stream e) n h = h
closed-Leaves A l left (Error.context c) n h = absurd (ground (arith, n))
closed-Leaves A l left (Error.fault f) n h = h
closed-Leaves A l left Error.closed n h = h
closed-Leaves A l left Error.short_write n h = h

settled-IsQuiet :
    (l : Link) (hs : List Happening)
    → IsQuiet l
    → IsQuiet (if is_interrupted hs then clear (run l hs) else run l hs)
settled-IsQuiet l hs quiet =
    branch IsQuiet (is_interrupted hs) _ _ (λ poked. refl) (λ calm. run-IsQuiet l hs calm quiet)

module _ {A : Type 0} where
  failed_read-Leaves :
      (l ran : Link) (w : Reading A) (interrupted : Bool) (f : ReadFault)
      → l.closed ≡ false
      → IsQuiet ran
      → Leaves l (failed_read ran w interrupted f)
  unfolding failed_read
  failed_read-Leaves l ran w interrupted f running quiet =
      branch (λ (x : Link × Outcome Error A). Leaves l x) ran.closed _ _ (λ shut. shut)
        (λ still.
          branch (λ (x : Link × Outcome Error A). Leaves l x)
            (interrupted && not w.dirty && is_late f) _ _ (λ given_up. (quiet, still ∙ sym running))
            (λ failing.
              closed-Leaves A l (record ran { closed = true }) _
                (chosen_not_context (not interrupted && w.dirty && is_late f) f) refl))

  finished-Leaves :
      (l ran : Link) (w : Reading A) (interrupted : Bool) (r : Outcome ReadFault A)
      → l.closed ≡ false
      → IsQuiet ran
      → Leaves l (finished ran w interrupted r)
  finished-Leaves l ran w interrupted (ok a) running quiet = (refl, refl)
  finished-Leaves l ran w interrupted (err f) running quiet =
      failed_read-Leaves l ran w interrupted f running quiet

  entered-Leaves :
      (l : Link) (w : Reading A) (entry : Option Cause) → IsQuiet l → Leaves l (entered l w entry)
  entered-Leaves l w (some c) quiet = (quiet, refl)
  entered-Leaves l w none quiet =
      branch (λ (x : Link × Outcome Error A). Leaves l x) l.closed _ _ (λ shut. shut)
        (λ running.
          finished-Leaves l _ w (is_interrupted w.happenings) w.result running
            (settled-IsQuiet l w.happenings quiet))

  -- What a read leaves of a connection on which no cancellation is pending: behind a result none is
  -- pending and the deadline is unset; behind the error of the context none is pending and the
  -- connection is closed exactly when it was before the read; behind any other error it is closed.
  pub read-Leaves : (l : Link) (w : Reading A) → IsQuiet l → Leaves l (read l w)
  unfolding read
  read-Leaves l w quiet = entered-Leaves l w w.entry quiet
