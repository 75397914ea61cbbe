-- ===== src/Demux/Ledger/ListEvents.antt =====
-- The routing of a list's response and events keeps the accounting.
use ami.Base.{
  ℕ, suc, ◌+◌, ◌-◌, ◌≤◌, ◌≡◌, refl, subst, sym, Bool, true, false, inl, inr, some, arith, lookup,
  number_eq, string_eq, delete, ltb, Outcome, ok, err, ◌>>=◌, Bool-cases, Option-cases,
}
use ami.Demux.Types.{Envelope, Reason, ListPhase, Violation, Effects, Counters}
use ami.Demux.Machine.{Machine, ListBranch, list_charge, list_hold, routing_active, wake}
use ami.Demux.Queue.{len, push}
use ami.Demux.Retire.{cleared, discard_list}
use ami.Demux.Route.Lists.{
  Routed, fail_list, commit_list_complete, commit_list_cancelled, arm_list, reserve_list,
  cancel_list, stored, store_completion, complete_list, declared_failure, enqueue_item, completes,
  observed, absorb_buffered, route_list_event, is_buffering, is_buffered, is_cancel,
}
use ami.Demux.Ledger.{IsSound, IsSettled, QueueFits, Safe, accepts}
use ami.Demux.Ledger.Checks.{Safe-if}
use ami.Demux.Ledger.Subs.{empty-QueueFits, push-QueueFits}
use ami.Demux.Ledger.Lists.{
  registered, PointsTo, PointsTo-held, list_held, write_same, write_registered,
}
use ami.Demux.Ledger.Records.{unlist-IsSound}
use ami.Demux.Ledger.Slots.{settle-Safe, settle_registered}

buffering_active : (ph : ListPhase) → is_buffering ph ≡ true → routing_active ph ≡ true
buffering_active ph h = ground arith

not_buffered_accepts :
    (ph : ListPhase) → is_buffered ph ≡ false → routing_active ph ≡ true → accepts ph ≡ true
not_buffered_accepts ph h a = ground arith

module _ {T : Type 0} where
  abbrev pub SoundAfter : Routed T → Type 0
  SoundAfter r = IsSound r.0

  -- The effects are no part of the accounting.
  with_effects :
      (o : Outcome Violation (Machine T)) (fx : Effects T)
      → Safe IsSound o
      → Safe SoundAfter (o >>= λ f. ok (f, fx))
  with_effects (ok m) fx s = s
  with_effects (err e) fx s = s

  pub fail_list-Safe :
      (m : Machine T) (l : ListBranch T) (reason : Reason) (fx : Effects T)
      → IsSound m
      → PointsTo m l
      → Safe SoundAfter (fail_list m l reason fx)
  unfolding fail_list discard_list
  fail_list-Safe m l reason fx v p = elim (Bool-cases (routing_active l.phase)) [
    | inl a ↦ rw a (
        with_effects _ (wake fx l.id) (
          settle-Safe (record m { list_by_action = delete l.action_id m.list_by_action }) l
            (cleared (record l { phase = ListPhase.dead; reason = reason }))
            (m.list_bytes - l.q.bytes - l.completion_size) (unlist-IsSound m v l.action_id) p
            (empty-QueueFits l.caps) (omega arith) refl (omega arith) (λ h. omega arith)))
    | inr a ↦ rw a refl
  ]

  pub commit_list_complete-Safe :
      (m : Machine T) (l : ListBranch T) (fx : Effects T)
      → IsSound m
      → PointsTo m l
      → QueueFits l.caps l.q
      → list_charge l ≤ l.caps.bytes
      → Safe SoundAfter (commit_list_complete m l fx)
  unfolding commit_list_complete
  commit_list_complete-Safe m l fx v p fits light = elim (Bool-cases (routing_active l.phase)) [
    | inl a ↦ rw a (
        with_effects _ (wake fx l.id) (
          settle-Safe (record m { list_by_action = delete l.action_id m.list_by_action }) l
            (record l { phase = ListPhase.draining }) m.list_bytes (unlist-IsSound m v l.action_id)
            p fits light refl (omega arith) (λ h. refl)))
    | inr a ↦ rw a refl
  ]

  arm_list-Safe :
      (ph : ListPhase) (m : Machine T) (l : ListBranch T) (fx : Effects T)
      → l.phase ≡ ph
      → IsSound m
      → PointsTo m l
      → IsSettled l
      → QueueFits l.caps l.q
      → list_charge l ≤ l.caps.bytes
      → Safe SoundAfter (arm_list ph m l fx)
  unfolding arm_list commit_list_cancelled
  arm_list-Safe ListPhase.buffering m l fx e v p s fits light =
      (write_same m v (record l { phase = ListPhase.streaming }) p
        ((λ a. absurd (cc)), (λ a. s.1 (rw e)))).0
  arm_list-Safe ListPhase.buffered_complete m l fx e v p s fits light =
      commit_list_complete-Safe m l fx v p fits light
  arm_list-Safe ListPhase.buffered_cancelled m l fx e v p s fits light =
      fail_list-Safe m l Reason.cancelled fx v p
  arm_list-Safe ListPhase.streaming m l fx e v p s fits light = refl
  arm_list-Safe ListPhase.draining m l fx e v p s fits light = refl
  arm_list-Safe ListPhase.dead m l fx e v p s fits light = (write_same m v l p s).0

  -- A cancellation.
  cancel_list-Safe :
      (m : Machine T) (l : ListBranch T) (fx : Effects T)
      → IsSound m
      → PointsTo m l
      → Safe SoundAfter (cancel_list m l fx)
  unfolding cancel_list commit_list_cancelled
  cancel_list-Safe m l fx v p = elim (Bool-cases (is_buffering l.phase)) [
    | inl b ↦
        rw b
          (write_same m v (record l { phase = ListPhase.buffered_cancelled }) p
            ((λ a. absurd (cc)), (λ a. absurd (cc)))).0
    | inr b ↦ rw b (fail_list-Safe m l Reason.cancelled fx v p)
  ]

  -- What a reservation has tested.
  reserve_list_lem :
      (m : Machine T) (l : ListBranch T) (size : ℕ) (item : Bool)
      → reserve_list m l size item ≡ true
      → (item ≡ true → suc (len l.q) ≤ l.caps.items)
        × (l.q.bytes + l.completion_size + size ≤ l.caps.bytes)
        × (m.list_bytes + size ≤ m.lim.max_list_bytes)
  unfolding reserve_list
  reserve_list_lem m l size item h = ground arith

module _ {T : Type 0} (m : Machine T) (v : IsSound m) (l old : ListBranch T)
    (found : lookup l.id m.list_by_id ≡ some old) (same : list_charge old ≡ list_charge l)
    (hold : list_hold old ≡ list_hold l) (fits : QueueFits l.caps l.q) (settled : IsSettled l)
    (light : list_charge l ≤ l.caps.bytes) where
  here : PointsTo m l
  here = registered old found same hold fits light

  module _ (size : ℕ) (msg : T) (fx : Effects T) where
    store_streaming :
        (routing_active l.phase ≡ true → l.completion_size ≡ 0)
        → reserve_list m l size false ≡ true
        → Safe SoundAfter (
            commit_list_complete
              (record m { list_bytes = m.list_bytes + size })
              (stored l msg size)
              fx)
    unfolding commit_list_complete
    store_streaming none_yet room =
        let (_, heavy, wide) = reserve_list_lem m l size false room in
        elim (Bool-cases (routing_active l.phase)) [
          | inl a ↦ rw a (
              with_effects _ (wake fx l.id) (
                settle_registered
                  (record m { list_by_action = delete l.action_id m.list_by_action })
                  (record (stored l msg size) { phase = ListPhase.draining }) old
                  (m.list_bytes + size) (unlist-IsSound m v l.action_id) found hold fits
                  (omega (arith, heavy)) refl (omega (arith, same, none_yet a)) wide))
          | inr a ↦ rw a refl
        ]

    -- The completion event is stored, and the list waits for its response or drains.
    store_completion-Safe :
        (routing_active l.phase ≡ true → l.completion_size ≡ 0)
        → Safe SoundAfter (store_completion m l size msg fx)
    unfolding store_completion
    store_completion-Safe a = elim (Bool-cases (reserve_list m l size false)) [
      | inl room ↦
          let (_, heavy, wide) = reserve_list_lem m l size false room in
          rw room (elim (Bool-cases (is_buffering l.phase)) [
            | inl b ↦
                rw b
                  (write_registered m v
                    (record (stored l msg size) { phase = ListPhase.buffered_complete }) old
                    (m.list_bytes + size) m.ret_held found fits (omega (arith, heavy))
                    ((λ x. absurd (cc)), (λ x. absurd (cc)))
                    (omega (arith, same, a (buffering_active l.phase b))) (omega (arith, hold)) wide
                    (omega (arith, hold))).0
            | inr b ↦ rw b (store_streaming a room)
          ])
      | inr full ↦ rw full (fail_list-Safe m l Reason.overflow fx v here)
    ]

    complete_list-Safe :
        (routing_active l.phase ≡ true → l.completion_size ≡ 0)
        → Safe SoundAfter (complete_list m l size msg fx)
    unfolding complete_list
    complete_list-Safe a = elim (Option-cases (declared_failure l msg)) [
      | inl e ↦ rw (e, complete_list) (store_completion-Safe a)
      | inr (reason, e) ↦ rw (e, complete_list) (fail_list-Safe m l reason fx v here)
    ]

    enqueue_item-Safe : Safe SoundAfter (enqueue_item m l size msg fx)
    unfolding enqueue_item push
    enqueue_item-Safe = elim (Bool-cases (reserve_list m l size true)) [
      | inl room ↦
          let (few, heavy, wide) = reserve_list_lem m l size true room in
          rw room
            (write_registered m v (record l { q = push l.q msg size; items = l.items + 1 }) old
              (m.list_bytes + size) m.ret_held found
              (push-QueueFits l.caps l.q msg size fits (few refl) (omega (arith, heavy)))
              (omega (arith, heavy)) settled (omega (arith, same)) (omega (arith, hold)) wide
              (omega (arith, hold))).0
      | inr full ↦ rw full (fail_list-Safe m l Reason.overflow fx v here)
    ]

module _ {T : Type 0} where
  -- The counters are no part of the accounting.
  pub recount : {m : Machine T} {ctr : Counters} → IsSound m → IsSound (record m { ctr = ctr })
  recount v = record { subs = v.subs; lists = v.lists; slots = v.slots; quiet = v.quiet }

  absorb_buffered-Safe :
      (m : Machine T) (l : ListBranch T) (over : Bool) (fx : Effects T)
      → IsSound m
      → PointsTo m l
      → IsSettled l
      → Safe SoundAfter (absorb_buffered m l over fx)
  unfolding absorb_buffered
  absorb_buffered-Safe m l true fx v p s = fail_list-Safe _ l Reason.overflow fx (recount v) p
  absorb_buffered-Safe m l false fx v p s = (write_same _ (recount v) l p s).0

  -- From a sound machine with a registered list, `routeListEvent` of any event to that list returns a
  -- sound machine, or stops at a violation that is not one of those that `check` reports.
  pub route_list_event-Safe :
      (m : Machine T) (id : ℕ) (old : ListBranch T) (env : Envelope) (msg : T) (fx : Effects T)
      → IsSound m
      → lookup id m.list_by_id ≡ some old
      → Safe SoundAfter (route_list_event m old env msg fx)
  unfolding route_list_event observed
  route_list_event-Safe m id old env msg fx v found =
      let f = list_held m v id old found in
      let p = PointsTo-held m v id old found in
      let at = subst (λ x. lookup x m.list_by_id ≡ some old) (sym f.keyed) found in
      let l = observed old env in
      Safe-if SoundAfter (is_buffered old.phase) _ _
        (λ b. absorb_buffered-Safe m l (ltb l.observed_cap l.observed) fx v p f.settled)
        λ b.
          Safe-if SoundAfter (ltb l.observed_cap l.observed) _ _
            (λ over. fail_list-Safe m l Reason.overflow fx v p)
            λ under.
              Safe-if SoundAfter (is_cancel env.mark) _ _ (λ c. cancel_list-Safe m l fx v p)
                λ c.
                  Safe-if SoundAfter (completes old env) _ _
                    (λ e.
                      complete_list-Safe m v l old at refl refl f.fits f.settled f.light env.size
                        msg fx (λ a. f.settled.1 (not_buffered_accepts old.phase b a)))
                    λ e.
                      enqueue_item-Safe m v l old at refl refl f.fits f.settled f.light env.size msg
                        fx
