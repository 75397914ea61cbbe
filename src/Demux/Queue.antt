-- ===== src/Demux/Queue.antt =====
-- internal/demux/queue.go: the FIFO on a slice with a head index. A queue is only reached through
-- its one owner, so the slice is a value here.
pub mod Fifo
use ami.Base.{
  ℕ, suc, ◌+◌, ◌-◌, Bool, ◌&&◌, List, [], ◌∷◌, ◌++◌, Option, none, some, ltb, leb, nat_eq,
  if◌then◌else◌, length, take, drop, set, get_or, Outcome, ok, err,
}
use ami.Demux.Types.{Violation}

-- `msg` is `none` in a slot that `pop` has released.
pub record Entry (T : Type 0) : Type 0 where
  pub msg : Option T
  pub size : ℕ

pub record Queue (T : Type 0) : Type 0 where
  pub entries : List (Entry T)
  pub head : ℕ
  pub bytes : ℕ

module _ {T : Type 0} where
  abbrev pub blank : Entry T
  blank = record { msg = none; size = 0 }

  abbrev pub empty : Queue T
  empty = record { entries = []; head = 0; bytes = 0 }

  unfoldable pub len : Queue T → ℕ
  len q = length q.entries - q.head

  unfoldable pub push : Queue T → T → ℕ → Queue T
  push q msg size = record q {
    entries = q.entries ++ record { msg = some msg; size = size } ∷ [];
    bytes = q.bytes + size;
  }

  -- The switch at the end of `pop`: rewind an empty queue, or slide the live tail to the front.
  pub compacted : Queue T → Queue T
  compacted q =
      if nat_eq q.head (length q.entries)
      then record q { entries = []; head = 0 }
      else if ltb 32 q.head && leb (length q.entries - q.head) q.head
      then record q { entries = drop q.head q.entries; head = 0 }
      else q

  pub released : Queue T → Entry T → Queue T
  released q e = compacted (record q {
    entries = set q.entries q.head blank;
    head = q.head + 1;
    bytes = q.bytes - e.size;
  })

  unfoldable pub pop : Queue T → Outcome Violation (Queue T × Option T × ℕ)
  unfolding len released compacted
  pop q =
      if nat_eq (len q) 0
      then err Violation.pop_empty
      else let e = get_or q.entries q.head blank in ok (released q e, e.msg, e.size)

  -- The queue with nothing in it, and the charge that this releases.
  unfoldable pub reset : Queue T → Queue T × ℕ
  reset q = (empty, q.bytes)
