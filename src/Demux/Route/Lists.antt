-- ===== src/Demux/Route/Lists.antt =====
-- internal/demux/route.go: a list's response and its events.
use ami.Base.{
  ℕ, ◌+◌, Bool, true, false, not, ◌&&◌, ◌||◌, Option, some, none, ltb, leb, nat_eq, if◌then◌else◌,
  string_eq, number_eq, delete, Outcome, ok, err, ◌>>=◌,
}
use ami.Demux.Types.{
  Mark, Envelope, Reason, ListPhase, Pending, Violation, Effects, ℤ, pos, negsuc, CountVerdict,
}
use ami.Demux.Machine.{Machine, ListBranch, routing_active, wake, save_list, list_at}
use ami.Demux.Names.{declares}
use ami.Demux.Queue.{len, push}
use ami.Demux.Retire.{cleared, discard_list, drop_list_entry, finish_list_slot}

-- The machine and the effects after a routing step.
abbrev pub Routed : Type 0 → Type 0
Routed T = Machine T × Effects T

abbrev pub is_terminal_mark : Mark → Bool
is_terminal_mark Mark.complete = true
is_terminal_mark Mark.cancelled = true
is_terminal_mark _ = false

abbrev pub is_cancel : Mark → Bool
is_cancel Mark.cancelled = true
is_cancel _ = false

abbrev pub is_complete : Mark → Bool
is_complete Mark.complete = true
is_complete _ = false

abbrev pub is_buffering : ListPhase → Bool
is_buffering ListPhase.buffering = true
is_buffering _ = false

-- A terminal mark is buffered, and the response is awaited.
abbrev pub is_buffered : ListPhase → Bool
is_buffered ListPhase.buffered_complete = true
is_buffered ListPhase.buffered_cancelled = true
is_buffered _ = false

abbrev pub counts : ℤ → ℕ → Bool
counts (pos n) items = nat_eq n items
counts (negsuc n) items = false

-- The test of a declared count: the reason to fail, if there is one.
abbrev pub count_failure : ℕ → ℤ × CountVerdict → Option Reason
count_failure items (want, CountVerdict.malformed) = some Reason.count_malformed
count_failure items (want, CountVerdict.declared) =
    if counts want items then none else some Reason.count_mismatch
count_failure items (want, CountVerdict.absent) = none

module _ {T : Type 0} where
  -- The end that the commits and failures share: the list leaves the routing index, its retained
  -- state goes unless it drains, and its slot is settled.
  unfoldable pub commit_list_complete :
      Machine T → ListBranch T → Effects T → Outcome Violation (Routed T)
  commit_list_complete m l fx =
      if not (routing_active l.phase) then err Violation.second_terminal else (do
        let d = record l { phase = ListPhase.draining }
        let s = save_list (record m { list_by_action = delete l.action_id m.list_by_action }) d
        f ← finish_list_slot s d
        ok (f, wake fx l.id))

  -- `commitListCancelled` and `failList`, which differ in the reason.
  unfoldable pub fail_list :
      Machine T → ListBranch T → Reason → Effects T → Outcome Violation (Routed T)
  fail_list m l reason fx =
      if not (routing_active l.phase) then err Violation.second_terminal else (do
        let d = record l { phase = ListPhase.dead; reason = reason }
        let s = discard_list (record m { list_by_action = delete l.action_id m.list_by_action }) d
        f ← finish_list_slot s (cleared d)
        ok (f, wake fx l.id))

  unfoldable pub commit_list_cancelled :
      Machine T → ListBranch T → Effects T → Outcome Violation (Routed T)
  commit_list_cancelled m l fx = fail_list m l Reason.cancelled fx

  -- The success case of `listResponse`.
  unfoldable pub arm_list :
      ListPhase → Machine T → ListBranch T → Effects T → Outcome Violation (Routed T)
  arm_list ListPhase.buffering m l fx =
      ok (save_list m (record l { phase = ListPhase.streaming }), fx)
  arm_list ListPhase.buffered_complete m l fx = commit_list_complete m l fx
  arm_list ListPhase.buffered_cancelled m l fx = commit_list_cancelled m l fx
  arm_list ListPhase.dead m l fx = ok (save_list m l, fx)
  arm_list _ m l fx = err Violation.list_streaming

  -- The error case of `listResponse`.
  unfoldable pub reject_list :
      Machine T
      → Pending
      → ListBranch T
      → Effects T
      → Outcome Violation (Machine T × Effects T × Pending)
  reject_list m p l fx = do
    let marked = record l { mark_seen = true }
    f ← finish_list_slot (drop_list_entry m marked) (cleared marked)
    ok (f, fx, record p { lst_open = false })

  unfoldable pub accept_list :
      Machine T
      → Pending
      → ListBranch T
      → Effects T
      → Outcome Violation (Machine T × Effects T × Pending)
  accept_list m p l fx = do (a, fx') ← arm_list l.phase m l fx; ok (a, fx', p)

  -- `listResponse`, with the pending as it is left.
  unfoldable pub list_response :
      Machine T
      → Pending
      → Envelope
      → Effects T
      → Outcome Violation (Machine T × Effects T × Pending)
  list_response m p env fx = do
    l ← list_at m p.lst
    let seen = record l { response_seen = true }
    if env.success then accept_list m p seen fx else reject_list m p seen fx

  -- `reserveList`
  unfoldable pub reserve_list : Machine T → ListBranch T → ℕ → Bool → Bool
  reserve_list m l size item =
      not (item && leb l.caps.items (len l.q))
      && leb (l.q.bytes + l.completion_size + size) l.caps.bytes
      && leb (m.list_bytes + size) m.lim.max_list_bytes

  -- The `cancel` case of `routeListEvent`.
  unfoldable pub cancel_list : Machine T → ListBranch T → Effects T → Outcome Violation (Routed T)
  cancel_list m l fx =
      if is_buffering l.phase
      then ok (save_list m (record l { phase = ListPhase.buffered_cancelled }), fx)
      else commit_list_cancelled m l fx

  abbrev pub stored : ListBranch T → T → ℕ → ListBranch T
  stored l msg size = record l {
    completion = some msg;
    completion_size = size;
    has_completion = true;
  }

  -- The `complete` case, behind the test of the count.
  unfoldable pub store_completion :
      Machine T → ListBranch T → ℕ → T → Effects T → Outcome Violation (Routed T)
  store_completion m l size msg fx =
      if not (reserve_list m l size false)
      then fail_list m l Reason.overflow fx
      else let c = record m { list_bytes = m.list_bytes + size } in
        let s = stored l msg size in
        if is_buffering l.phase
        then ok (save_list c (record s { phase = ListPhase.buffered_complete }), fx)
        else commit_list_complete c s fx

  unfoldable pub declared_failure : ListBranch T → T → Option Reason
  declared_failure l msg = elim l.count [
    | none ↦ none
    | some count ↦ count_failure l.items (count msg)
  ]

  -- The `complete` case of `routeListEvent`.
  unfoldable pub complete_list :
      Machine T → ListBranch T → ℕ → T → Effects T → Outcome Violation (Routed T)
  complete_list m l size msg fx = elim (declared_failure l msg) [
    | some reason ↦ fail_list m l reason fx
    | none ↦ store_completion m l size msg fx
  ]

  -- The default case of `routeListEvent`: an item.
  unfoldable pub enqueue_item :
      Machine T → ListBranch T → ℕ → T → Effects T → Outcome Violation (Routed T)
  enqueue_item m l size msg fx =
      if not (reserve_list m l size true)
      then fail_list m l Reason.overflow fx
      else ok (
        save_list (record m { list_bytes = m.list_bytes + size })
            (record l { q = push l.q msg size; items = l.items + 1 }),
        wake fx l.id,
      )

  -- Whether the event completes the list: by its mark, or by a declared name.
  unfoldable pub completes : ListBranch T → Envelope → Bool
  completes l env =
      is_complete env.mark || (not (is_cancel env.mark) && declares l.completions env.name)

  -- The list with the event counted, and with the mark that it carries.
  unfoldable pub observed : ListBranch T → Envelope → ListBranch T
  observed l env = record l {
    observed = l.observed + env.size;
    mark_seen = l.mark_seen || is_cancel env.mark || completes l env;
  }

  -- An event behind a buffered terminal mark.
  unfoldable pub absorb_buffered :
      Machine T → ListBranch T → Bool → Effects T → Outcome Violation (Routed T)
  absorb_buffered m l over fx =
      let c = record m { ctr = record m.ctr { quarantined = m.ctr.quarantined + 1 } } in
      if over then fail_list c l Reason.overflow fx else ok (save_list c l, fx)

  -- `routeListEvent`
  unfoldable pub route_list_event :
      Machine T → ListBranch T → Envelope → T → Effects T → Outcome Violation (Routed T)
  route_list_event m old env msg fx =
      let l = observed old env in
      let over = ltb l.observed_cap l.observed in
      if is_buffered l.phase
      then absorb_buffered m l over fx
      else if over
      then fail_list m l Reason.overflow fx
      else if is_cancel env.mark
      then cancel_list m l fx
      else if completes old env
      then complete_list m l env.size msg fx
      else enqueue_item m l env.size msg fx
