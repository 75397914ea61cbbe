-- ===== src/Demux/Route.antt =====
-- internal/demux/route.go: one inbound message is delivered, absorbed or discarded.
pub mod Lists
pub mod Fanout
pub mod Delivery
pub mod Reach
use ami.Base.{
  ℕ, ◌+◌, ◌-◌, Bool, true, false, not, ◌&&◌, ◌||◌, List, [], ◌∷◌, ◌++◌, Option, some, none, ltb,
  leb, nat_eq, if◌then◌else◌, Bytes, string_eq, number_eq, length, Map, lookup, insert, delete,
  Outcome, ok, err, guard, ◌>>=◌, ◌>>◌,
}
use ami.Demux.Types.{
  Kind, same_kind, Class, Mark, Envelope, Reason, Phase, PendingState, Pending, Record, Violation,
  Effects, Completion, is_completed,
}
use ami.Demux.Machine.{
  Machine, Follow, ListBranch, check, checked, no_effects, wake, save_pending, save_follow,
  save_list, follow_at, registered_at, or_nil, advance,
}
use ami.Demux.Names.{is_empty, declares, selects}
use ami.Demux.Queue.{push}
use ami.Demux.Retire.{
  response_evidence, mark_evidence, save_record, maybe_drop_record, drop_list_entry,
  finish_list_slot, cleared,
}
use ami.Demux.Death.{release_ret_hold, maybe_release_ticket, end_pending, terminal_follow, fatal}
use Fanout.{reserve_sub_family, fanout}
use Lists.{Routed, list_response, route_list_event, is_terminal_mark}

module _ {T : Type 0} where
  abbrev pub count_quarantined : Machine T → Machine T
  count_quarantined m = record m { ctr = record m.ctr { quarantined = m.ctr.quarantined + 1 } }

  -- A record that takes a message in.
  abbrev pub absorb : Machine T → Record → Machine T
  absorb m r = count_quarantined (save_record m r)

  abbrev pub settle_record : Machine T → Record → Machine T
  settle_record m r = maybe_drop_record (save_record m r) r

  -- The response settles the hold of a request, or is handed to the list. The pending comes back as
  -- it is left.
  unfoldable pub settle_response :
      Kind
      → Machine T
      → Pending
      → Envelope
      → Effects T
      → Outcome Violation (Machine T × Effects T × Pending)
  settle_response Kind.request m p env fx =
      ok (release_ret_hold m p, fx, record p { ret_held = false })
  settle_response Kind.list m p env fx = list_response m p env fx
  settle_response Kind.unset m p env fx = ok (m, fx, p)

  -- A live drain record of the same ActionID takes the response as evidence.
  unfoldable pub evidence_for : Machine T → Envelope → Machine T
  evidence_for m env = elim (lookup env.action_id m.records) [
    | none ↦ m
    | some r ↦ settle_record m (response_evidence r env.success)
  ]

  -- The response of the pending `p`.
  unfoldable pub complete_pending :
      Machine T → Pending → Envelope → T → Effects T → Outcome Violation (Routed T)
  complete_pending m p env msg fx = do
    guard (same_kind p.kind env.kind) Violation.kind_diverged
    guard (not (is_completed p.state)) Violation.completed_indexed
    let done = record p { state = PendingState.completed }
    let told = record fx {
      complete =
          fx.complete ++ record { ticket = p.ticket; response = some msg; delivered = true } ∷ [];
    }
    (s, fx', q) ← settle_response p.kind (end_pending (save_pending m done) p) done env told
    ok (evidence_for (maybe_release_ticket (save_pending s q) q) env, fx')

  -- `routeResponse`: `none` where Go returns false.
  unfoldable pub route_response :
      Machine T → Envelope → T → Effects T → Outcome Violation (Option (Routed T))
  route_response m env msg fx = elim (lookup env.action_id m.pend_by_action) [
    | some t ↦ (do
      p ← or_nil (lookup t m.pend_by_ticket)
      r ← complete_pending m p env msg fx
      ok (some r))
    | none ↦ elim (lookup env.action_id m.records) [
      | some r ↦
          let s = response_evidence (record r { absorbed = r.absorbed + 1 }) env.success in
          ok (some (maybe_drop_record (absorb m s) s, fx))
      | none ↦ ok none
    ]
  ]

  -- `routeFollowEvent`, once the event is known to be for the follow: `phase` is the phase after it.
  unfoldable pub deliver_follow :
      Machine T → Follow T → Bool → Envelope → T → Effects T → Outcome Violation (Routed T)
  deliver_follow m f completes env msg fx =
      if not (reserve_sub_family m f.q f.caps env.size)
      then terminal_follow m f Reason.lagged fx
      else let s = record m { sub_bytes = m.sub_bytes + env.size } in
        let g = record f { q = push f.q msg env.size } in
        if completes
        then ok (
          save_follow (record s { fol_by_action = delete f.action_id s.fol_by_action })
              (record g { phase = Phase.draining }),
          wake fx f.id,
        )
        else ok (save_follow s g, wake fx f.id)

  unfoldable pub route_follow_event :
      Machine T → Follow T → Envelope → T → Effects T → Outcome Violation (Routed T)
  route_follow_event m f env msg fx =
      if declares f.completions env.name
      then deliver_follow m f true env msg fx
      else if not (selects f.events env.name)
      then ok (m, fx)
      else deliver_follow m f false env msg fx

  -- An own event of a list action.
  unfoldable pub route_own_list :
      Machine T → Envelope → T → Effects T → Outcome Violation (Routed T)
  route_own_list m env msg fx = elim (lookup env.action_id m.list_by_action) [
    | some id ↦ (do l ← registered_at m id; route_list_event m l env msg fx)
    | none ↦ elim (lookup env.action_id m.records) [
      | some r ↦
          let a = record r { absorbed = r.absorbed + 1 } in
          let s =
            if is_terminal_mark env.mark || declares r.completions env.name
            then mark_evidence a
            else a in
          ok (maybe_drop_record (absorb m s) s, fx)
      | none ↦ ok (
        record m { ctr = record m.ctr { late_list_discards = m.ctr.late_list_discards + 1 } },
        fx,
      )
    ]
  ]

  -- The follow of a request's event, if one is routed.
  unfoldable pub route_to_follow :
      Machine T → Envelope → T → Effects T → Outcome Violation (Routed T)
  route_to_follow m env msg fx = elim (lookup env.action_id m.fol_by_action) [
    | some id ↦ (do f ← follow_at m (some id); route_follow_event m f env msg fx)
    | none ↦ ok (m, fx)
  ]

  -- An own event of a request.
  unfoldable pub route_own_request :
      Machine T → Envelope → T → Effects T → Outcome Violation (Routed T)
  route_own_request m env msg fx = elim (lookup env.action_id m.records) [
    | some r ↦ ok (absorb m (record r { absorbed = r.absorbed + 1 }), fx)
    | none ↦ (do (m', fx') ← route_to_follow m env msg fx; fanout m' env msg fx')
  ]

  unfoldable pub route_own :
      Kind → Machine T → Envelope → T → Effects T → Outcome Violation (Routed T)
  route_own Kind.list m env msg fx = route_own_list m env msg fx
  route_own Kind.request m env msg fx = route_own_request m env msg fx
  route_own Kind.unset m env msg fx = err Violation.own_without_kind

  -- `routeEvent`
  unfoldable pub route_event : Machine T → Envelope → T → Effects T → Outcome Violation (Routed T)
  route_event m env msg fx =
      if not env.own then fanout m env msg fx else route_own env.kind m env msg fx

  -- The response case of `Route`.
  unfoldable pub route_strict : Machine T → Envelope → T → Outcome Violation (Routed T)
  route_strict m env msg =
      if is_empty env.action_id
      then fatal m Reason.response_no_id Kind.unset
      else if not env.own
      then fatal m Reason.response_foreign Kind.unset
      else (do
        r ← route_response m env msg no_effects
        elim r [
          | none ↦ fatal m Reason.response_unmatched Kind.unset
          | some s ↦ checked (λ t. t.0) s
        ])

  unfoldable pub route_class : Class → Machine T → Envelope → T → Outcome Violation (Routed T)
  route_class Class.response m env msg = route_strict m env msg
  route_class Class.event m env msg = do s ← route_event m env msg no_effects; checked (λ t. t.0) s
  route_class Class.invalid m env msg = fatal m Reason.envelope_invalid Kind.unset

  -- `Route`
  unfoldable pub route : Machine T → Envelope → T → Outcome Violation (Routed T)
  route m env msg = do
    guard (not m.dead) Violation.route_dead
    guard (ltb 0 env.size) Violation.size_not_positive
    route_class env.class (advance m env.now) env msg
