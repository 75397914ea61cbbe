-- ===== src/Client/Reads.antt =====
-- conn.go: `read`, with the deadline of the connection that its hooks and a cancellation set.
pub mod Outcomes
use ami.Base.{
  ℕ, Bool, true, false, not, ◌&&◌, ◌||◌, List, [], ◌∷◌, Option, some, none, if◌then◌else◌, Outcome,
  ok, err,
}
use ami.Wire.Types as Wire
use ami.Client.Framer.{Error, Category, Dimension, Cause, Fault, wire_error}

-- The read deadline: none, in the past, or the age of the frame from now.
pub data Deadline : Type 0 where
  unset past frame : Deadline

-- The framer, as far as a read goes.
pub record Link : Type 0 where
  pub closed : Bool
  pub poked : Bool
  pub deadline : Deadline

-- What happens while a read runs: the context ends, a frame starts, a blank line was padding, and
-- `close` is called.
pub data Happening : Type 0 where
  poke frame_started frame_padded close : Happening

-- `readPoke`, `frameStarted`, `framePadded` and `close`
abbrev pub happen : Link → Happening → Link
happen l Happening.poke = record l { poked = true; deadline = Deadline.past }
happen l Happening.frame_started =
    if l.poked || l.closed then l else record l { deadline = Deadline.frame }
happen l Happening.frame_padded =
    if l.poked || l.closed then l else record l { deadline = Deadline.unset }
happen l Happening.close = record l { closed = true }

unfoldable pub run : Link → List Happening → Link
run l [] = l
run l (h ∷ hs) = run (happen l h) hs

-- `readClear`
abbrev pub clear : Link → Link
clear l = record l { poked = false; deadline = Deadline.unset }

unfoldable pub is_interrupted : List Happening → Bool
is_interrupted [] = false
is_interrupted (Happening.poke ∷ hs) = true
is_interrupted (Happening.frame_started ∷ hs) = is_interrupted hs
is_interrupted (Happening.frame_padded ∷ hs) = is_interrupted hs
is_interrupted (Happening.close ∷ hs) = is_interrupted hs

-- The error of the operation: of internal/wire, or of the transport.
pub data ReadFault : Type 0 where
  wire : Wire.Error → ReadFault
  transport : Fault → ReadFault

abbrev pub is_late : ReadFault → Bool
is_late (ReadFault.transport Fault.deadline) = true
is_late f = false

abbrev pub fault_error : ReadFault → Error
fault_error (ReadFault.wire e) = wire_error e
fault_error (ReadFault.transport f) = Error.fault f

-- What the world does to one read: whether the context is done when it starts, what happens while it
-- runs, why the context ended, and what the operation leaves in the reader's dirty flag and returns.
pub record Reading (A : Type 0) : Type 0 where
  pub entry : Option Cause
  pub happenings : List Happening
  pub cause : Cause
  pub dirty : Bool
  pub result : Outcome ReadFault A

module _ {A : Type 0} where
  -- The part of `read` behind an operation that has failed.
  unfoldable pub failed_read : Link → Reading A → Bool → ReadFault → Link × Outcome Error A
  failed_read l w interrupted f =
      if l.closed
      then (l, err Error.closed)
      else if interrupted && not w.dirty && is_late f
      then (l, err (Error.context w.cause))
      else (
        record l { closed = true },
        err (
            if not interrupted && w.dirty && is_late f
            then Error.protocol Category.limit Dimension.max_partial_frame_age
            else fault_error f),
      )

  abbrev pub finished : Link → Reading A → Bool → Outcome ReadFault A → Link × Outcome Error A
  finished l w interrupted (ok a) = (clear l, ok a)
  finished l w interrupted (err f) = failed_read l w interrupted f

  abbrev pub operated : Link → Reading A → Link × Outcome Error A
  operated l w =
      let interrupted = is_interrupted w.happenings in
      let ran = run l w.happenings in
      finished (if interrupted then clear ran else ran) w interrupted w.result

  -- `enter` and what follows it.
  abbrev pub entered : Link → Reading A → Option Cause → Link × Outcome Error A
  entered l w (some c) = (l, err (Error.context c))
  entered l w none = if l.closed then (l, err Error.closed) else operated l w

  -- `read`
  unfoldable pub read : Link → Reading A → Link × Outcome Error A
  read l w = entered l w w.entry
