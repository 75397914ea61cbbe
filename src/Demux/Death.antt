-- ===== src/Demux/Death.antt =====
-- internal/demux/demux.go: `Kill`, `fatal` and the death cascade `kill`, with the releases that it
-- shares with the other operations.
use ami.Base.{
  ℕ, ◌-◌, Bool, true, false, not, ◌&&◌, List, [], ◌∷◌, ◌++◌, some, none, nat_eq, if◌then◌else◌,
  string_eq, number_eq, lookup, delete, insert, keys, Outcome, ok, err, ◌>>=◌,
}
use ami.Demux.Types.{
  Kind, Reason, Phase, ListPhase, PendingState, Pending, Violation, Effects, is_active,
  is_completed,
}
use ami.Demux.Machine.{
  Machine, Subscription, Follow, ListBranch, no_effects, wake, save_pending, save_sub, save_follow,
  save_list, sub_at, follow_at, registered_at, or_nil, checked, advance,
}
use ami.Demux.Queue
use ami.Demux.Retire.{discard_list, cleared, expired}

abbrev pub is_settled : ListPhase → Bool
is_settled ListPhase.draining = true
is_settled ListPhase.dead = true
is_settled _ = false

module _ {T : Type 0} where
  -- `releaseRetHold`: the pending is saved without its hold.
  unfoldable pub release_ret_hold : Machine T → Pending → Machine T
  release_ret_hold m p =
      let freed = record m {
        pend_by_ticket = insert p.ticket (record p { ret_held = false }) m.pend_by_ticket;
        internal_ret_held = if p.internal then false else m.internal_ret_held;
        ret_held = if p.internal then m.ret_held else m.ret_held - 1;
      } in
      if not p.ret_held then m else freed

  -- `maybeReleaseTicket`
  unfoldable pub maybe_release_ticket : Machine T → Pending → Machine T
  maybe_release_ticket m p = record m {
    pend_by_ticket =
        if is_completed p.state && p.committed && not p.fol_open && not p.lst_open
        then delete p.ticket m.pend_by_ticket
        else m.pend_by_ticket;
  }

  -- The end of a pending's slot: it leaves the routing index and the count of its family.
  abbrev pub end_pending : Machine T → Pending → Machine T
  end_pending m p = record m {
    pend_by_action = delete p.action_id m.pend_by_action;
    internal_active = if p.internal then false else m.internal_active;
    public_pending = if p.internal then m.public_pending else m.public_pending - 1;
  }

  -- `terminalSub`
  unfoldable pub terminal_sub :
      Machine T → Subscription T → Reason → Effects T → Outcome Violation (Machine T × Effects T)
  terminal_sub m s reason fx =
      if not (is_active s.phase)
      then err Violation.second_terminal
      else ok (
        save_sub (record m { sub_bytes = m.sub_bytes - s.q.bytes })
            (record s { phase = Phase.dead; reason = reason; q = Queue.empty }),
        wake fx s.id,
      )

  -- `terminalFollow`
  unfoldable pub terminal_follow :
      Machine T → Follow T → Reason → Effects T → Outcome Violation (Machine T × Effects T)
  terminal_follow m f reason fx =
      if not (is_active f.phase)
      then err Violation.second_terminal
      else ok (
        save_follow
            (record m {
              sub_bytes = m.sub_bytes - f.q.bytes;
              fol_by_action = delete f.action_id m.fol_by_action;
            })
            (record f { phase = Phase.dead; reason = reason; q = Queue.empty }),
        wake fx f.id,
      )

  -- One round of the loop over `pendByTicket`.
  unfoldable pub kill_pending : Machine T → Effects T → Pending → Machine T × Effects T
  kill_pending m fx p =
      if is_completed p.state
      then (m, fx)
      else let done = record p {
        state = PendingState.completed;
        dead_done = true;
        ret_held = false;
      } in
        let h =
          release_ret_hold m (record p { state = PendingState.completed; dead_done = true }) in
        let s = end_pending (save_pending h done) p in
        (
          maybe_release_ticket s done,
          record fx {
            complete =
                fx.complete
                ++ record { ticket = p.ticket; response = none; delivered = false } ∷ [];
          },
        )

  unfoldable pub kill_pendings :
      List ℕ → Machine T → Effects T → Outcome Violation (Machine T × Effects T)
  kill_pendings [] m fx = ok (m, fx)
  kill_pendings (t ∷ ts) m fx = do
    p ← or_nil (lookup t m.pend_by_ticket)
    let (m', fx') = kill_pending m fx p
    kill_pendings ts m' fx'

  unfoldable pub kill_subs :
      List ℕ → Machine T → Effects T → Outcome Violation (Machine T × Effects T)
  kill_subs [] m fx = ok (m, fx)
  kill_subs (id ∷ ids) m fx = do
    s ← sub_at m id
    (m', fx') ← terminal_sub m s Reason.client_dead fx
    kill_subs ids m' fx'

  unfoldable pub kill_follow :
      Machine T → Effects T → Follow T → Outcome Violation (Machine T × Effects T)
  kill_follow m fx f =
      if is_active f.phase then terminal_follow m f Reason.client_dead fx else ok (m, fx)

  unfoldable pub kill_follows :
      List ℕ → Machine T → Effects T → Outcome Violation (Machine T × Effects T)
  kill_follows [] m fx = ok (m, fx)
  kill_follows (id ∷ ids) m fx = do
    f ← follow_at m (some id)
    (m', fx') ← kill_follow m fx f
    kill_follows ids m' fx'

  -- One round of the loop over `listByID`.
  unfoldable pub kill_list : Machine T → Effects T → ListBranch T → Machine T × Effects T
  kill_list m fx l =
      if is_settled l.phase
      then (m, fx)
      else let d = discard_list m l in
        let h = if l.ret_held then record d { ret_held = d.ret_held - 1 } else d in
        let s = save_list h (record (cleared l) {
          ret_held = false;
          phase = ListPhase.dead;
          reason = Reason.client_dead;
        }) in
        (record s { list_by_action = delete l.action_id s.list_by_action }, wake fx l.id)

  unfoldable pub kill_lists :
      List ℕ → Machine T → Effects T → Outcome Violation (Machine T × Effects T)
  kill_lists [] m fx = ok (m, fx)
  kill_lists (id ∷ ids) m fx = do
    l ← registered_at m id
    let (m', fx') = kill_list m fx l
    kill_lists ids m' fx'

  -- `clear(m.records)` and the test behind it.
  unfoldable pub bury : Machine T → Effects T → Outcome Violation (Machine T × Effects T)
  bury m fx =
      if nat_eq m.ret_held 0
      then ok (record m { records = []; internal_ret_held = false }, fx)
      else err Violation.holds_survived

  -- `kill`: each loop runs over the entries that its map has when the loop starts.
  unfoldable pub kill_cascade : Machine T → Reason → Outcome Violation (Machine T × Effects T)
  kill_cascade m cause = do
    let dying = record m { dead = true; dead_reason = cause }
    (a, fa) ← kill_pendings (keys dying.pend_by_ticket) dying no_effects
    (b, fb) ← kill_subs a.sub_order a fa
    let c = record b { sub_order = [] }
    (d, fd) ← kill_follows (keys c.fol_by_id) c fb
    (e, fe) ← kill_lists (keys d.list_by_id) d fd
    bury e fe

  -- `Kill`
  unfoldable pub kill : Machine T → Reason → Outcome Violation (Machine T × Effects T)
  kill m cause = if m.dead then ok (m, no_effects) else kill_cascade m cause >>= checked (λ r. r.0)

  unfoldable pub fatal : Machine T → Reason → Kind → Outcome Violation (Machine T × Effects T)
  fatal m reason kind = do
    (m', fx) ← kill_cascade m reason
    ok (m', record fx { fatal = some (record { reason = reason; kind = kind }) })

  -- `Expire`
  unfoldable pub expire : Machine T → ℕ → Outcome Violation (Machine T × Effects T)
  expire m now =
      if m.dead
      then ok (m, no_effects)
      else let c = advance m now in
        elim (expired now none c.records) [
          | none ↦ ok (c, no_effects)
          | some r ↦ fatal c Reason.retirement_expired r.kind
        ]
