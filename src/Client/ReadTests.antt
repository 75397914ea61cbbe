-- ===== src/Client/ReadTests.antt =====
-- A read on which the context ends, and the theorems of the reads at it.
use ami.Base.{◌≡◌, refl, true, false, [], ◌∷◌, none, err, ℕ}
use ami.Client.Framer.{Error, Category, Dimension, Cause, Fault}
use ami.Client.Reads.{
  Deadline, Link, Happening, ReadFault, Reading, run, is_interrupted, failed_read, read,
}
use ami.Client.Reads.Outcomes.{Leaves, read-Leaves}

abbrev idle : Link
idle = record { closed = false; poked = false; deadline = Deadline.unset }

-- The context ends in the middle of a frame, and the read fails at the deadline.
abbrev torn : Reading ℕ
torn = record {
  entry = none;
  happenings = Happening.frame_started ∷ Happening.poke ∷ [];
  cause = Cause.canceled;
  dirty = true;
  result = err (ReadFault.transport Fault.deadline);
}

torn_poisons : (read idle torn).0.closed ≡ true
unfolding read run is_interrupted failed_read
torn_poisons = refl

-- The frame grows too old without a cancellation.
abbrev aged : Reading ℕ
aged = record torn { happenings = Happening.frame_started ∷ [] }

aged_limit :
    (read idle aged).1 ≡ err (Error.protocol Category.limit Dimension.max_partial_frame_age)
unfolding read run is_interrupted failed_read
aged_limit = refl

-- The context ends between two messages.
abbrev calm : Reading ℕ
calm = record torn { happenings = Happening.poke ∷ []; dirty = false }

calm_stays : read idle calm ≡ (idle, err (Error.context Cause.canceled))
unfolding read run is_interrupted failed_read
calm_stays = refl

read-Leaves_example : Leaves idle (read idle torn)
read-Leaves_example = read-Leaves idle torn refl
