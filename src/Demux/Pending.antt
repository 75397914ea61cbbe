-- ===== src/Demux/Pending.antt =====
-- internal/demux/pending.go: the life of an admitted action, from `Admit` to the release of its
-- ticket.
use ami.Base.{
  ℕ, ◌+◌, ◌-◌, Bool, true, false, not, ◌&&◌, ◌||◌, List, Option, some, none, ltb, leb,
  if◌then◌else◌, Bytes, string_eq, number_eq, length, lookup, insert, Outcome, ok, err, guard,
  ◌>>=◌, ◌>>◌,
}
use ami.Demux.Types.{
  Kind, same_kind, Reason, Phase, ListPhase, PendingState, Pending, Error, Violation, FollowOptions,
  ListOptions, AdmitOptions, is_completed,
}
use ami.Demux.Machine.{
  Machine, Follow, ListBranch, checked, save_pending, save_follow, save_list, follow_at, list_at,
  advance, public_records,
}
use ami.Demux.Names.{fold_set, is_empty}
use ami.Demux.Queue
use ami.Demux.Branch.{caps_valid, release_follow_entry}
use ami.Demux.Retire.{add_record, drop_list_entry, finish_list_slot, cleared}
use ami.Demux.Death.{release_ret_hold, maybe_release_ticket, end_pending}

abbrev pub is_some {ℓ} : {A : Type ℓ} → Option A → Bool
is_some none = false
is_some (some a) = true

abbrev pub is_list : Kind → Bool
is_list = same_kind Kind.list

abbrev pub is_request : Kind → Bool
is_request = same_kind Kind.request

-- The folded name sets of a registration: follow events, follow completions, list completions.
pub record Names : Type 0 where
  pub fol_events : Option (List Bytes)
  pub fol_completions : Option (List Bytes)
  pub lst_completions : Option (List Bytes)

abbrev pub written : PendingState → PendingState
written PendingState.reserved = PendingState.in_flight
written s = s

abbrev pub aborted : Pending → Pending
aborted p = record p {
  committed = true;
  state = PendingState.completed;
  ret_held = if is_completed p.state then p.ret_held else false;
  fol_open = false;
  lst_open = false;
}

abbrev pub is_in_flight : PendingState → Bool
is_in_flight PendingState.in_flight = true
is_in_flight _ = false

abbrev pub is_dead : ListPhase → Bool
is_dead ListPhase.dead = true
is_dead _ = false

module _ {T : Type 0} where
  -- The tests of `Admit` on the kind and the options.
  unfoldable pub well_formed : Machine T → Bytes → Kind → AdmitOptions T → Outcome Error (Unit {0})
  well_formed m action_id kind o = do
    guard (not m.dead) Error.dead
    guard (not (is_empty action_id || (not (is_request kind) && not (is_list kind))))
        Error.invalid_options
    guard
        (if is_list kind
          then is_some o.listing && not (is_some o.follow)
          else not (is_some o.listing))
        Error.invalid_options
    guard (not (o.internal && (is_some o.follow || is_some o.listing))) Error.invalid_options

  unfoldable pub follow_names :
      Machine T → Option FollowOptions → Outcome Error (Option (List Bytes) × Option (List Bytes))
  follow_names m none = ok (none, none)
  follow_names m (some f) = do
    guard (caps_valid f.caps) Error.invalid_options
    events ← fold_set m.lim f.events
    completions ← fold_set m.lim f.completions
    ok (events, completions)

  unfoldable pub list_names :
      Machine T → Option (ListOptions T) → Outcome Error (Option (List Bytes))
  list_names m none = ok none
  list_names m (some l) = do
    guard (caps_valid l.caps && ltb 0 l.observed_bytes) Error.invalid_options
    fold_set m.lim l.completions

  -- The tests of `Admit` on the capacity.
  unfoldable pub has_room : Machine T → Kind → AdmitOptions T → Outcome Error (Unit {0})
  has_room m kind o =
      if o.internal
      then guard (not (m.internal_active || m.internal_ret_held)) Error.internal_busy
      else do
        guard (not (leb m.lim.max_pending m.public_pending)) Error.pending_limit
        guard (not (leb m.lim.max_retirement (m.ret_held + public_records m)))
            Error.retirement_limit
        guard (not (is_list kind && leb m.lim.max_lists (length m.list_by_action))) Error.list_limit

  unfoldable pub admissible : Machine T → Bytes → Kind → AdmitOptions T → Outcome Error Names
  admissible m action_id kind o = do
    well_formed m action_id kind o
    (events, completions) ← follow_names m o.follow
    listed ← list_names m o.listing
    has_room m kind o
    ok (record { fol_events = events; fol_completions = completions; lst_completions = listed })

  -- The four maps that the test for a duplicate looks into. `folByAction` and `listByAction` hold
  -- ids here.
  unfoldable pub is_known : Machine T → Bytes → Bool
  is_known m a =
      is_some (lookup a m.pend_by_action)
      || is_some (lookup a m.fol_by_action)
      || is_some (lookup a m.list_by_action)
      || is_some (lookup a m.records)

  -- The counts and holds of an admission.
  unfoldable pub reserve : Machine T → Kind → Bool → Machine T
  reserve m kind internal = record m {
    internal_active = internal || m.internal_active;
    internal_ret_held = internal || m.internal_ret_held;
    public_pending = if internal then m.public_pending else m.public_pending + 1;
    ret_held = if not internal && is_request kind then m.ret_held + 1 else m.ret_held;
  }

  abbrev pub new_pending : Machine T → Bytes → Kind → Bool → Pending
  new_pending m action_id kind internal = record {
    ticket = m.next_ticket;
    action_id = action_id;
    kind = kind;
    internal = internal;
    state = PendingState.reserved;
    committed = false;
    dead_done = false;
    ret_held = internal || is_request kind;
    fol = none;
    fol_open = false;
    lst = none;
    lst_open = false;
  }

  unfoldable pub new_follow : Machine T → Bytes → Names → FollowOptions → Follow T
  new_follow m action_id names f = record {
    id = m.next_branch;
    action_id = action_id;
    phase = Phase.active;
    reason = Reason.none;
    adopted = false;
    events = names.fol_events;
    completions = names.fol_completions;
    caps = f.caps;
    q = Queue.empty;
  }

  unfoldable pub new_list : Machine T → Bytes → Names → ListOptions T → ListBranch T
  new_list m action_id names l = record {
    id = m.next_branch;
    action_id = action_id;
    phase = ListPhase.buffering;
    reason = Reason.none;
    adopted = false;
    completions = names.lst_completions;
    count = l.count;
    caps = l.caps;
    observed_cap = l.observed_bytes;
    observed = 0;
    items = 0;
    completion = none;
    completion_size = 0;
    has_completion = false;
    response_seen = false;
    mark_seen = false;
    ret_held = true;
    q = Queue.empty;
  }

  -- The branch of an admission, registered with its pending `p`.
  unfoldable pub register_branch : Machine T → Pending → Bytes → Names → AdmitOptions T → Machine T
  register_branch m p action_id names o = elim o.follow [
    | some f ↦
        save_follow
          (save_pending
            (record m {
              next_branch = m.next_branch + 1;
              fol_by_action = insert action_id m.next_branch m.fol_by_action;
            })
            (record p { fol = some m.next_branch; fol_open = true }))
          (new_follow m action_id names f)
    | none ↦ elim o.listing [
      | some l ↦
          let s =
            save_pending
              (record m {
                next_branch = m.next_branch + 1;
                ret_held = m.ret_held + 1;
                list_by_action = insert action_id m.next_branch m.list_by_action;
              })
              (record p { lst = some m.next_branch; lst_open = true }) in
          record s { list_by_id = insert m.next_branch (new_list m action_id names l) s.list_by_id }
      | none ↦ save_pending m p
    ]
  ]

  unfoldable pub enter : Machine T → Bytes → Kind → AdmitOptions T → Names → Machine T
  enter m action_id kind o names =
      let p = new_pending m action_id kind o.internal in
      register_branch
        (reserve
          (record m {
            next_ticket = m.next_ticket + 1;
            pend_by_action = insert action_id m.next_ticket m.pend_by_action;
          })
          kind o.internal)
        p action_id names o

  -- `Admit`: a refused call leaves the machine as it was.
  unfoldable pub admit :
      Machine T → Bytes → Kind → AdmitOptions T → Outcome Violation (Machine T × Outcome Error ℕ)
  admit m action_id kind o = elim (admissible m action_id kind o) [
    | err e ↦ ok (m, err e)
    | ok names ↦
        if is_known m action_id
        then err Violation.duplicate_id
        else checked (λ r. r.0) (enter m action_id kind o names, ok m.next_ticket)
  ]

  -- `m.ticket`
  unfoldable pub ticket : Machine T → ℕ → Outcome Violation Pending
  ticket m t = elim (lookup t m.pend_by_ticket) [
    | none ↦ err Violation.unknown_ticket
    | some p ↦ ok p
  ]

  -- The pending is saved, its ticket released if nothing is due any more, and the machine checked.
  unfoldable pub conclude : Machine T → Pending → Outcome Violation (Machine T)
  conclude m p = checked (λ r. r) (maybe_release_ticket (save_pending m p) p)

  -- `CommitWrite`
  unfoldable pub commit_write : Machine T → ℕ → Outcome Violation (Machine T)
  commit_write m t = do
    p ← ticket m t
    guard (not p.committed) Violation.resolved_twice
    conclude m (record p { committed = true; state = written p.state })

  -- The release of a provisional follow, if there is one.
  unfoldable pub drop_follow : Machine T → Pending → Outcome Violation (Machine T)
  drop_follow m p =
      if p.fol_open then (do f ← follow_at m p.fol; ok (release_follow_entry m f)) else ok m

  -- The release of a provisional list by `AbortNotSent`, its hold included.
  unfoldable pub drop_list : Machine T → Pending → Outcome Violation (Machine T)
  drop_list m p =
      if p.lst_open
      then (do
        l ← list_at m p.lst
        let d =
            if l.ret_held
            then save_list (record m { ret_held = m.ret_held - 1 }) (record l { ret_held = false })
            else m
        ok (drop_list_entry d (record l { ret_held = false })))
      else ok m

  -- The first half of `AbortNotSent`: an outcome that is still open is closed.
  unfoldable pub abort_pending : Machine T → Pending → Machine T
  abort_pending m p = if is_completed p.state then m else end_pending (release_ret_hold m p) p

  -- `AbortNotSent`
  unfoldable pub abort_not_sent : Machine T → ℕ → Outcome Violation (Machine T)
  abort_not_sent m t = do
    p ← ticket m t
    guard (not p.committed) Violation.resolved_twice
    guard (not (is_completed p.state && not p.dead_done)) Violation.abort_after_response
    a ← drop_follow (abort_pending m p) p
    b ← drop_list a p
    conclude b (aborted p)

  -- The request case of `Abandon`: the reserved slot becomes a record.
  unfoldable pub abandon_request : Machine T → Pending → Outcome Violation (Machine T × Pending)
  abandon_request m p = do
    d ← drop_follow m p
    guard p.ret_held Violation.abandon_without_slot
    let q = record p { fol_open = false; ret_held = false; state = PendingState.completed }
    let s = if p.internal then d else record d { ret_held = d.ret_held - 1 }
    r ← add_record (save_pending s q) p.action_id Kind.request none p.internal true false
    ok (r, q)

  -- The list case of `Abandon`.
  unfoldable pub abandon_list : Machine T → Pending → Outcome Violation (Machine T × Pending)
  abandon_list m p = do
    l ← list_at m p.lst
    f ← finish_list_slot (drop_list_entry m l) (cleared l)
    ok (f, record p { lst_open = false; state = PendingState.completed })

  unfoldable pub abandon_kind : Kind → Machine T → Pending → Outcome Violation (Machine T × Pending)
  abandon_kind Kind.request m p = abandon_request m p
  abandon_kind Kind.list m p = abandon_list m p
  abandon_kind Kind.unset m p = ok (m, record p { state = PendingState.completed })

  -- `Abandon`
  unfoldable pub abandon : Machine T → ℕ → ℕ → Outcome Violation (Machine T)
  abandon m t now = do
    p ← ticket m t
    guard (is_in_flight p.state) Violation.abandon_not_in_flight
    (m', q) ← abandon_kind p.kind (end_pending (advance m now) p) p
    conclude m' q

  -- `AdoptFollow`
  unfoldable pub adopt_follow : Machine T → ℕ → Outcome Violation (Machine T × ℕ)
  adopt_follow m t = do
    p ← ticket m t
    guard (is_some p.fol && p.fol_open) Violation.adopt_not_held
    f ← follow_at m p.fol
    m' ← conclude (save_follow m (record f { adopted = true })) (record p { fol_open = false })
    ok (m', f.id)

  -- `CloseFollow`
  unfoldable pub close_follow : Machine T → ℕ → Outcome Violation (Machine T)
  close_follow m t = do
    p ← ticket m t
    guard (is_some p.fol && p.fol_open) Violation.close_not_held
    f ← follow_at m p.fol
    conclude (release_follow_entry m f) (record p { fol_open = false })

  -- `AdoptList`
  unfoldable pub adopt_list : Machine T → ℕ → Outcome Violation (Machine T × ℕ)
  adopt_list m t = do
    p ← ticket m t
    guard (is_some p.lst && p.lst_open) Violation.adopt_not_held
    l ← list_at m p.lst
    m' ← conclude (save_list m (record l { adopted = true })) (record p { lst_open = false })
    ok (m', l.id)

  -- `CloseList`
  unfoldable pub close_list : Machine T → ℕ → Outcome Violation (Machine T)
  close_list m t = do
    p ← ticket m t
    guard (is_some p.lst && p.lst_open) Violation.close_not_held
    l ← list_at m p.lst
    guard (is_dead l.phase) Violation.close_live_list
    conclude (drop_list_entry m l) (record p { lst_open = false })
