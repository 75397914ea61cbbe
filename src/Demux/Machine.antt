-- ===== src/Demux/Machine.antt =====
-- internal/demux/demux.go: the machine's state, its accounting check, and the writes that the
-- operations share. A Go pointer to a registered object is the object's key in its map. A list that
-- has left `list_by_id` while a pending still points to it moves to `detached_lists`.
use mathlib.Core.Option.{Option}
use ami.Base.{
  ℕ, ◌+◌, Bool, true, false, not, ◌&&◌, ◌||◌, List, [], ◌∷◌, ◌++◌, some, none, ltb, nat_eq,
  if◌then◌else◌, Bytes, number_eq, string_eq, length, Map, lookup, insert, delete, total, every,
  Outcome, ok, err, guard, ◌>>◌,
}
use ami.Demux.Types.{
  Reason, Caps, Limits, Counters, Snapshot, Phase, ListPhase, is_active, is_completed, Pending,
  Record, Violation, Effects, ℤ, CountVerdict,
}
use ami.Demux.Queue.{Queue, len}

pub record Subscription (T : Type 0) : Type 0 where
  pub id : ℕ
  pub phase : Phase
  pub reason : Reason
  pub names : Option (List Bytes)
  pub caps : Caps
  pub q : Queue T

pub record Follow (T : Type 0) : Type 0 where
  pub id : ℕ
  pub action_id : Bytes
  pub phase : Phase
  pub reason : Reason
  pub adopted : Bool
  pub events : Option (List Bytes)
  pub completions : Option (List Bytes)
  pub caps : Caps
  pub q : Queue T

-- Go's `list`. `completion` is `none` where Go has the zero value.
pub record ListBranch (T : Type 0) : Type 0 where
  pub id : ℕ
  pub action_id : Bytes
  pub phase : ListPhase
  pub reason : Reason
  pub adopted : Bool
  pub completions : Option (List Bytes)
  pub count : Option (T → ℤ × CountVerdict)
  pub caps : Caps
  pub observed_cap : ℕ
  pub observed : ℕ
  pub items : ℕ
  pub completion : Option T
  pub completion_size : ℕ
  pub has_completion : Bool
  pub response_seen : Bool
  pub mark_seen : Bool
  pub ret_held : Bool
  pub q : Queue T

abbrev pub routing_active : ListPhase → Bool
routing_active ListPhase.draining = false
routing_active ListPhase.dead = false
routing_active _ = true

pub record Machine (T : Type 0) : Type 0 where
  pub lim : Limits
  pub now : ℕ
  pub dead : Bool
  pub dead_reason : Reason
  pub next_ticket : ℕ
  pub next_branch : ℕ
  pub pend_by_action : Map Bytes ℕ
  pub pend_by_ticket : Map ℕ Pending
  pub public_pending : ℕ
  pub internal_active : Bool
  pub internal_ret_held : Bool
  pub sub_by_id : Map ℕ (Subscription T)
  pub sub_order : List ℕ
  pub fol_by_id : Map ℕ (Follow T)
  pub fol_by_action : Map Bytes ℕ
  pub list_by_id : Map ℕ (ListBranch T)
  pub list_by_action : Map Bytes ℕ
  pub detached_lists : Map ℕ (ListBranch T)
  pub records : Map Bytes Record
  pub sub_bytes : ℕ
  pub list_bytes : ℕ
  pub ret_held : ℕ
  pub ctr : Counters

-- One for a thing that is counted, zero for one that is not.
abbrev pub one_if : Bool → ℕ
one_if b = if b then 1 else 0

abbrev pub pending_hold : Pending → ℕ
pending_hold p = one_if (p.ret_held && not p.internal)

abbrev pub pending_public : Pending → ℕ
pending_public p = one_if (not p.internal && not (is_completed p.state))

abbrev pub record_public : Record → ℕ
record_public r = one_if (not r.internal)

-- `x > limit && limit > 0` is a violation.
abbrev pub within : ℕ → ℕ → Bool
within limit x = not (ltb limit x && ltb 0 limit)

-- A pointer that is followed.
abbrev pub or_nil {ℓ} : {A : Type ℓ} → Option A → Outcome Violation A
or_nil none = err Violation.dangling
or_nil (some a) = ok a

module _ {T : Type 0} where
  abbrev pub no_effects : Effects T
  no_effects = record { wakes = []; complete = []; fatal = none }

  abbrev pub wake : Effects T → ℕ → Effects T
  wake fx id = record fx { wakes = fx.wakes ++ id ∷ [] }

  abbrev pub sub_charge : Subscription T → ℕ
  sub_charge s = s.q.bytes

  abbrev pub follow_charge : Follow T → ℕ
  follow_charge f = f.q.bytes

  abbrev pub list_charge : ListBranch T → ℕ
  list_charge l = l.q.bytes + l.completion_size

  abbrev pub list_hold : ListBranch T → ℕ
  list_hold l = one_if l.ret_held

  abbrev pub sub_fits : Subscription T → Bool
  sub_fits s = not (is_active s.phase && (ltb s.caps.items (len s.q) || ltb s.caps.bytes s.q.bytes))

  abbrev pub follow_fits : Follow T → Bool
  follow_fits f = not (ltb f.caps.items (len f.q) || ltb f.caps.bytes f.q.bytes)

  abbrev pub list_fits : ListBranch T → Bool
  list_fits l = not (ltb l.caps.bytes (list_charge l) || ltb l.caps.items (len l.q))

  abbrev pub public_records : Machine T → ℕ
  public_records m = total record_public m.records

  abbrev pub nothing_routed : Machine T → Bool
  nothing_routed m =
      nat_eq (length m.records) 0
      && nat_eq (length m.sub_order) 0
      && nat_eq (length m.fol_by_action) 0
      && nat_eq (length m.list_by_action) 0
      && nat_eq (length m.pend_by_action) 0

  -- `check`. Charges are natural numbers, so that none is negative; a charge taken away twice shows
  -- as a sum that differs from its aggregate.
  unfoldable pub check : Machine T → Outcome Violation (Unit {0})
  unfolding len
  check m = do
    guard (every sub_fits m.sub_by_id) Violation.sub_caps
    guard (every follow_fits m.fol_by_id) Violation.follow_caps
    guard (nat_eq (total sub_charge m.sub_by_id + total follow_charge m.fol_by_id) m.sub_bytes)
        Violation.sub_diverged
    guard (within m.lim.max_subscription_bytes m.sub_bytes) Violation.sub_limit
    guard (every list_fits m.list_by_id) Violation.list_caps
    guard (nat_eq (total list_charge m.list_by_id) m.list_bytes) Violation.list_diverged
    guard (within m.lim.max_list_bytes m.list_bytes) Violation.list_limit
    guard (nat_eq (total pending_hold m.pend_by_ticket + total list_hold m.list_by_id) m.ret_held)
        Violation.holds_diverged
    guard (within m.lim.max_retirement (m.ret_held + public_records m)) Violation.retirement_limit
    guard (nat_eq (total pending_public m.pend_by_ticket) m.public_pending)
        Violation.pending_diverged
    guard (not m.dead || nothing_routed m) Violation.routing_survived

  -- `m.check()` and the return behind it.
  abbrev pub checked {ℓ} : {A : Type ℓ} → (A → Machine T) → A → Outcome Violation A
  checked f a = check (f a) >> ok a

  unfoldable pub new : Limits → Machine T
  new lim = record {
    lim = lim;
    now = 0;
    dead = false;
    dead_reason = Reason.none;
    next_ticket = 1;
    next_branch = 1;
    pend_by_action = [];
    pend_by_ticket = [];
    public_pending = 0;
    internal_active = false;
    internal_ret_held = false;
    sub_by_id = [];
    sub_order = [];
    fol_by_id = [];
    fol_by_action = [];
    list_by_id = [];
    list_by_action = [];
    detached_lists = [];
    records = [];
    sub_bytes = 0;
    list_bytes = 0;
    ret_held = 0;
    ctr = record { late_list_discards = 0; quarantined = 0; unmatched = 0 };
  }

  -- `Snapshot`
  unfoldable pub snapshot : Machine T → Snapshot
  snapshot m = record {
    counters = m.ctr;
    subscriptions = length m.sub_by_id + length m.fol_by_id;
    lists = length m.list_by_id;
    pending = m.public_pending;
    retirements = length m.records;
    subscription_bytes = m.sub_bytes;
    list_bytes = m.list_bytes;
  }

  -- `clock`
  abbrev pub advance : Machine T → ℕ → Machine T
  advance m now = record m { now = if ltb m.now now then now else m.now }

  -- Writes through a pointer.
  abbrev pub save_pending : Machine T → Pending → Machine T
  save_pending m p = record m { pend_by_ticket = insert p.ticket p m.pend_by_ticket }

  abbrev pub save_sub : Machine T → Subscription T → Machine T
  save_sub m s = record m { sub_by_id = insert s.id s m.sub_by_id }

  abbrev pub save_follow : Machine T → Follow T → Machine T
  save_follow m f = record m { fol_by_id = insert f.id f m.fol_by_id }

  unfoldable pub save_list : Machine T → ListBranch T → Machine T
  save_list m l = record m {
    list_by_id = elim (lookup l.id m.list_by_id) [
      | some _ ↦ insert l.id l m.list_by_id
      | none ↦ m.list_by_id
    ];
    detached_lists = elim (lookup l.id m.list_by_id) [
      | some _ ↦ m.detached_lists
      | none ↦ insert l.id l m.detached_lists
    ];
  }

  -- `delete(m.listByID, l.id)`
  unfoldable pub detach_list : Machine T → ListBranch T → Machine T
  detach_list m l = record m {
    list_by_id = delete l.id m.list_by_id;
    detached_lists = elim (lookup l.id m.list_by_id) [
      | some old ↦ insert l.id old m.detached_lists
      | none ↦ m.detached_lists
    ];
  }

  -- Reads through a pointer.
  abbrev pub sub_at : Machine T → ℕ → Outcome Violation (Subscription T)
  sub_at m id = or_nil (lookup id m.sub_by_id)

  abbrev pub follow_at : Machine T → Option ℕ → Outcome Violation (Follow T)
  follow_at m none = err Violation.dangling
  follow_at m (some id) = or_nil (lookup id m.fol_by_id)

  abbrev pub list_at : Machine T → Option ℕ → Outcome Violation (ListBranch T)
  list_at m none = err Violation.dangling
  list_at m (some id) = elim (lookup id m.list_by_id) [
    | some l ↦ ok l
    | none ↦ or_nil (lookup id m.detached_lists)
  ]

  -- `listByID` and `listByAction` point to registered lists.
  abbrev pub registered_at : Machine T → ℕ → Outcome Violation (ListBranch T)
  registered_at m id = or_nil (lookup id m.list_by_id)
