-- ===== src/Demux/Ledger/Route.antt =====
-- Every event that `routeEvent` takes keeps the accounting.
use ami.Base.{
  ◌+◌, ◌≡◌, refl, subst, sym, Bool, true, false, not, ◌||◌, inl, inr, some, Bytes, All-lookup,
  lookup, number_eq, string_eq, if◌then◌else◌, Option-cases,
}
use ami.Demux.Types.{Kind, Envelope, Record, Effects}
use ami.Demux.Machine.{Machine}
use ami.Demux.Names.{declares}
use ami.Demux.Retire.{mark_evidence}
use ami.Demux.Route.Lists.{is_terminal_mark}
use ami.Demux.Route.{route_own_list, route_own_request, route_own, route_event, absorb}
use ami.Demux.Ledger.{IsSound, IsRecorded, Safe}
use ami.Demux.Ledger.Checks.{Safe-bind, Safe-if}
use ami.Demux.Ledger.ListEvents.{SoundAfter, recount, route_list_event-Safe}
use ami.Demux.Ledger.Events.{fanout-Safe, route_to_follow-Safe}
use ami.Demux.Ledger.Records.{drop_record-IsSound, save_record-IsSound}

marked_family :
    (b : Bool) (r : Record)
    → ((if b then mark_evidence r else r).action_id ≡ r.action_id)
      × ((if b then mark_evidence r else r).internal ≡ r.internal)
marked_family true r = (refl, refl)
marked_family false r = (refl, refl)

module _ {T : Type 0} (m : Machine T) (v : IsSound m) where
  -- A record that has absorbed a message is written in its own place.
  absorb-IsSound :
      (a : Bytes) (r old : Record)
      → lookup a m.records ≡ some old
      → r.action_id ≡ old.action_id
      → r.internal ≡ old.internal
      → IsSound (absorb m r)
  absorb-IsSound a r old found same family =
      let keyed : r.action_id ≡ a =
        subst (λ x. x ≡ a) (sym same)
          (All-lookup IsRecorded a old m.records v.slots.recorded found) in
      recount (
        save_record-IsSound m v r old (subst (λ x. lookup x m.records ≡ some old) (sym keyed) found)
          family)

module _ {T : Type 0} where
  route_own_list-Safe :
      (m : Machine T) (env : Envelope) (msg : T) (fx : Effects T)
      → IsSound m
      → Safe SoundAfter (route_own_list m env msg fx)
  unfolding route_own_list
  route_own_list-Safe m env msg fx v = elim (Option-cases (lookup env.action_id m.list_by_action)) [
    | inr (id, routed) ↦
        rw (routed, route_own_list)
          (elim (Option-cases (lookup id m.list_by_id)) [
            | inl gone ↦ rw gone refl
            | inr (l, found) ↦ rw found (route_list_event-Safe m id l env msg fx v found)
          ])
    | inl unrouted ↦
        rw (unrouted, route_own_list)
          (elim (Option-cases (lookup env.action_id m.records)) [
            | inl late ↦ rw (late, route_own_list) (recount v)
            | inr (r, live) ↦
                let a = record r { absorbed = r.absorbed + 1 } in
                let b = is_terminal_mark env.mark || declares r.completions env.name in
                let (same, family) = marked_family b a in
                rw (live, route_own_list)
                  (drop_record-IsSound (absorb m (if b then mark_evidence a else a))
                    (absorb-IsSound m v env.action_id (if b then mark_evidence a else a) r live same
                      family)
                    (if b then mark_evidence a else a))
          ])
  ]

  route_own_request-Safe :
      (m : Machine T) (env : Envelope) (msg : T) (fx : Effects T)
      → IsSound m
      → Safe SoundAfter (route_own_request m env msg fx)
  unfolding route_own_request
  route_own_request-Safe m env msg fx v = elim (Option-cases (lookup env.action_id m.records)) [
    | inr (r, live) ↦
        rw (live, route_own_request)
          (absorb-IsSound m v env.action_id (record r { absorbed = r.absorbed + 1 }) r live refl
            refl)
    | inl free ↦
        rw (free, route_own_request)
          (Safe-bind SoundAfter SoundAfter _ _ (route_to_follow-Safe m env msg fx v)
            λ r e w. fanout-Safe r.0 env msg r.1 w)
  ]

  route_own-Safe :
      (k : Kind) (m : Machine T) (env : Envelope) (msg : T) (fx : Effects T)
      → IsSound m
      → Safe SoundAfter (route_own k m env msg fx)
  unfolding route_own
  route_own-Safe Kind.unset m env msg fx v = refl
  route_own-Safe Kind.request m env msg fx v = route_own_request-Safe m env msg fx v
  route_own-Safe Kind.list m env msg fx v = route_own_list-Safe m env msg fx v

  -- From a sound machine, `routeEvent` of any event, of whatever owner, kind, name and size, returns a
  -- sound machine, or stops at a violation that is not one of those that `check` reports.
  pub route_event-Safe :
      (m : Machine T) (env : Envelope) (msg : T) (fx : Effects T)
      → IsSound m
      → Safe SoundAfter (route_event m env msg fx)
  unfolding route_event
  route_event-Safe m env msg fx v =
      Safe-if SoundAfter (not env.own) _ _ (λ _. fanout-Safe m env msg fx v)
        λ _. route_own-Safe env.kind m env msg fx v
