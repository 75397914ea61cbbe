-- ===== src/Demux/Ledger.antt =====
-- The accounting of internal/demux as an invariant: what `check` of demux.go tests, and what the
-- operations need in order to keep it. Each part names only the fields that it is about, so that an
-- operation on one family leaves the other parts as they are.
pub mod Checks
pub mod Subs
pub mod Lists
pub mod Records
pub mod Slots
pub mod ListEvents
pub mod Events
pub mod Route
pub mod Take
pub mod Admission
pub mod Tickets
pub mod Leaving
pub mod Close
pub mod Subscribe
use ami.Base.{
  ℕ, ◌+◌, ◌≤◌, ◌≡◌, Bool, true, false, List, [], ◌∷◌, Option, some, none, Bytes, Map, lookup, total,
  All, Unique, Outcome, ok, err, number_eq,
}
use ami.Demux.Types.{Caps, Pending, Record, Violation, ListPhase, is_completed}
use ami.Demux.Machine.{
  Machine, Subscription, Follow, ListBranch, sub_charge, follow_charge, list_charge, list_hold,
  pending_hold, pending_public, record_public, one_if, routing_active,
}
use ami.Demux.Queue.{Queue, len}
use ami.Demux.Queue.Fifo.{IsValid}

pub record QueueFits {T : Type 0} (caps : Caps) (q : Queue T) : Type 0 where
  pub valid : IsValid q
  pub few : len q ≤ caps.items
  pub light : q.bytes ≤ caps.bytes

pub record SubFits {T : Type 0} (id : ℕ) (s : Subscription T) : Type 0 where
  pub keyed : s.id ≡ id
  pub fits : QueueFits s.caps s.q

pub record FollowFits {T : Type 0} (id : ℕ) (f : Follow T) : Type 0 where
  pub keyed : f.id ≡ id
  pub fits : QueueFits f.caps f.q

-- The phases in which a completion event may still be stored.
abbrev pub accepts : ListPhase → Bool
accepts ListPhase.buffering = true
accepts ListPhase.streaming = true
accepts _ = false

-- A terminal list has given its slot back, and no list stores a second completion event.
abbrev pub IsSettled : {T : Type 0} → ListBranch T → Type 0
IsSettled l =
    (routing_active l.phase ≡ false → l.ret_held ≡ false)
    × (accepts l.phase ≡ true → l.completion_size ≡ 0)

-- The stored completion event counts against the byte cap.
pub record ListFits {T : Type 0} (id : ℕ) (l : ListBranch T) : Type 0 where
  pub keyed : l.id ≡ id
  pub fits : QueueFits l.caps l.q
  pub light : list_charge l ≤ l.caps.bytes
  pub settled : IsSettled l

-- A list that only a pending points to retains nothing and holds no slot.
pub record IsSpent {T : Type 0} (id : ℕ) (l : ListBranch T) : Type 0 where
  pub keyed : l.id ≡ id
  pub fits : QueueFits l.caps l.q
  pub charge_zero : list_charge l ≡ 0
  pub no_hold : l.ret_held ≡ false

pub record SubLedger {T : Type 0} (subs : Map ℕ (Subscription T)) (follows : Map ℕ (Follow T))
    (bytes limit : ℕ) : Type 0 where
  pub subs_fit : All SubFits subs
  pub follows_fit : All FollowFits follows
  pub balance : total sub_charge subs + total follow_charge follows ≡ bytes
  pub room : bytes ≤ limit

pub record ListLedger {T : Type 0} (lists detached : Map ℕ (ListBranch T)) (bytes limit : ℕ)
    : Type 0 where
  pub unique : Unique lists
  pub lists_fit : All ListFits lists
  pub spent : All IsSpent detached
  pub balance : total list_charge lists ≡ bytes
  pub room : bytes ≤ limit

abbrev pub pending_open : Pending → ℕ
pending_open p = elim (is_completed p.state) [ true ↦ 0 | false ↦ 1 ]

abbrev pub IsRecorded : Bytes → Record → Type 0
IsRecorded a r = r.action_id ≡ a

-- A pending whose outcome is known holds no slot.
abbrev pub IsTicketed : ℕ → Pending → Type 0
IsTicketed t p = (p.ticket ≡ t) × (is_completed p.state ≡ true → p.ret_held ≡ false)

pub record SlotLedger {T : Type 0} (pendings : Map ℕ Pending) (lists : Map ℕ (ListBranch T))
    (records : Map Bytes Record) (held public limit : ℕ) : Type 0 where
  pub ticketed : All IsTicketed pendings
  pub recorded : All IsRecorded records
  pub held_sum : total pending_hold pendings + total list_hold lists ≡ held
  pub public_sum : total pending_public pendings ≡ public
  pub room : held + total record_public records ≤ limit

-- What is left of a machine that was killed: no routing state, no holds, and nothing that awaits its
-- outcome.
pub record IsQuiet (records : Map Bytes Record) (order : List ℕ)
    (follows lists pendings : Map Bytes ℕ) (held : ℕ) (tickets : Map ℕ Pending) : Type 0 where
  pub no_records : records ≡ []
  pub no_order : order ≡ []
  pub no_follows : follows ≡ []
  pub no_lists : lists ≡ []
  pub no_pendings : pendings ≡ []
  pub no_holds : held ≡ 0
  pub all_completed : total pending_open tickets ≡ 0

abbrev pub Quiet : {T : Type 0} → Machine T → Type 0
Quiet m =
    IsQuiet m.records m.sub_order m.fol_by_action m.list_by_action m.pend_by_action m.ret_held
      m.pend_by_ticket

pub record IsSound {T : Type 0} (m : Machine T) : Type 0 where
  pub subs : SubLedger m.sub_by_id m.fol_by_id m.sub_bytes m.lim.max_subscription_bytes
  pub lists : ListLedger m.list_by_id m.detached_lists m.list_bytes m.lim.max_list_bytes
  pub slots :
      SlotLedger m.pend_by_ticket m.list_by_id m.records m.ret_held m.public_pending
        m.lim.max_retirement
  pub quiet : m.dead ≡ true → Quiet m

-- The violations that `check` can report.
abbrev pub is_accounting : Violation → Bool
is_accounting Violation.sub_caps = true
is_accounting Violation.follow_caps = true
is_accounting Violation.sub_diverged = true
is_accounting Violation.sub_limit = true
is_accounting Violation.list_caps = true
is_accounting Violation.list_diverged = true
is_accounting Violation.list_limit = true
is_accounting Violation.holds_diverged = true
is_accounting Violation.retirement_limit = true
is_accounting Violation.pending_diverged = true
is_accounting Violation.routing_survived = true
is_accounting _ = false

-- The call returns a result with `P`, or stops at a violation that is not one of the check's.
abbrev pub Safe : {A : Type 0} → (A → Type 0) → Outcome Violation A → Type 0
Safe P (ok a) = P a
Safe P (err v) = is_accounting v ≡ false
