-- ===== src/Demux/Isolation.antt =====
-- The traffic of a list is kept from the ordinary subscriptions and the follows (route.go).
use ami.Base.{
  ℕ, ◌≡◌, refl, subst, sym, Bool, true, false, not, ◌&&◌, inl, inr, List, Option, Bytes, lookup,
  number_eq, string_eq, if◌then◌else◌, Outcome, ok, Option-cases, ltb,
}
use ami.Demux.Types.{Kind, Envelope, Reason, Violation, Effects}
use ami.Demux.Machine.{Machine, ListBranch, save_list, routing_active}
use ami.Demux.Retire.{discard_list, add_record, finish_list_slot, maybe_drop_record}
use ami.Demux.Route.Lists.{
  Routed, fail_list, commit_list_complete, commit_list_cancelled, cancel_list, store_completion,
  complete_list, declared_failure, reserve_list, enqueue_item, absorb_buffered, observed, completes,
  route_list_event, is_buffering, is_buffered, is_cancel,
}
use ami.Demux.Route.Fanout.{fanout}
use ami.Demux.Route.{route_own_list, route_own, route_event}
use ami.Demux.Returns.{Returns, Returns-if, Returns-bind, Returns-ok}

module _ {T : Type 0} where
  -- The subscription family is the same: its branches with their queues, its indexes, its charges.
  abbrev pub Apart : Machine T → Machine T → Type 0
  Apart m n =
      (n.sub_by_id ≡ m.sub_by_id)
      × (n.sub_order ≡ m.sub_order)
      × (n.fol_by_id ≡ m.fol_by_id)
      × (n.fol_by_action ≡ m.fol_by_action)
      × (n.sub_bytes ≡ m.sub_bytes)

  abbrev Keeps : Machine T → Outcome Violation (Machine T) → Type 0
  Keeps m o = Returns (Apart m) o

  abbrev KeepsRouted : Machine T → Outcome Violation (Routed T) → Type 0
  KeepsRouted m o = Returns (λ r. Apart m r.0) o

  unchanged : (m : Machine T) → Apart m m
  unchanged m = (refl, refl, refl, refl, refl)

  add_record-Keeps :
      (m : Machine T) (a : Bytes) (kind : Kind) (completions : Option (List Bytes))
      (internal need_response need_mark : Bool)
      → Keeps m (add_record m a kind completions internal need_response need_mark)
  unfolding add_record
  add_record-Keeps m a kind completions internal need_response need_mark =
      Returns-if (Apart m) (not need_response && not need_mark) _ _ tt
        (elim (Option-cases (lookup a m.records)) [
          | inl fresh ↦ rw fresh (unchanged m)
          | inr (old, taken) ↦ rw taken tt
        ])

  finish_list_slot-Keeps : (m : Machine T) (l : ListBranch T) → Keeps m (finish_list_slot m l)
  unfolding finish_list_slot save_list
  finish_list_slot-Keeps m l = Returns-if (Apart m) (not l.ret_held) _ _ (unchanged m) (
      Returns-if (Apart m) (l.response_seen && l.mark_seen) _ _ (unchanged m) (
        add_record-Keeps _ l.action_id Kind.list l.completions false (not l.response_seen)
          (not l.mark_seen)))

  fail_list-Keeps :
      (m : Machine T) (l : ListBranch T) (reason : Reason) (fx : Effects T)
      → KeepsRouted m (fail_list m l reason fx)
  unfolding fail_list discard_list save_list
  fail_list-Keeps m l reason fx =
      Returns-if (λ r. Apart m r.0) (not (routing_active l.phase)) _ _ tt
        (Returns-bind (Apart m) (λ r. Apart m r.0) _ _ (finish_list_slot-Keeps _ _) λ n k. k)

  commit_list_complete-Keeps :
      (m : Machine T) (l : ListBranch T) (fx : Effects T)
      → KeepsRouted m (commit_list_complete m l fx)
  unfolding commit_list_complete save_list
  commit_list_complete-Keeps m l fx =
      Returns-if (λ r. Apart m r.0) (not (routing_active l.phase)) _ _ tt
        (Returns-bind (Apart m) (λ r. Apart m r.0) _ _ (finish_list_slot-Keeps _ _) λ n k. k)

  cancel_list-Keeps :
      (m : Machine T) (l : ListBranch T) (fx : Effects T) → KeepsRouted m (cancel_list m l fx)
  unfolding cancel_list commit_list_cancelled save_list
  cancel_list-Keeps m l fx =
      Returns-if (λ r. Apart m r.0) (is_buffering l.phase) _ _ (unchanged m)
        (fail_list-Keeps m l Reason.cancelled fx)

  store_completion-Keeps :
      (m : Machine T) (l : ListBranch T) (size : ℕ) (msg : T) (fx : Effects T)
      → KeepsRouted m (store_completion m l size msg fx)
  unfolding store_completion save_list
  store_completion-Keeps m l size msg fx =
      Returns-if (λ r. Apart m r.0) (not (reserve_list m l size false)) _ _
        (fail_list-Keeps m l Reason.overflow fx)
        (Returns-if (λ r. Apart m r.0) (is_buffering l.phase) _ _ (unchanged m)
          (commit_list_complete-Keeps _ _ fx))

  complete_list-Keeps :
      (m : Machine T) (l : ListBranch T) (size : ℕ) (msg : T) (fx : Effects T)
      → KeepsRouted m (complete_list m l size msg fx)
  unfolding complete_list
  complete_list-Keeps m l size msg fx = elim (Option-cases (declared_failure l msg)) [
    | inl counted ↦ rw (counted, complete_list) (store_completion-Keeps m l size msg fx)
    | inr (reason, failed) ↦ rw (failed, complete_list) (fail_list-Keeps m l reason fx)
  ]

  enqueue_item-Keeps :
      (m : Machine T) (l : ListBranch T) (size : ℕ) (msg : T) (fx : Effects T)
      → KeepsRouted m (enqueue_item m l size msg fx)
  unfolding enqueue_item save_list
  enqueue_item-Keeps m l size msg fx =
      Returns-if (λ r. Apart m r.0) (not (reserve_list m l size true)) _ _
        (fail_list-Keeps m l Reason.overflow fx) (unchanged m)

  absorb_buffered-Keeps :
      (m : Machine T) (l : ListBranch T) (over : Bool) (fx : Effects T)
      → KeepsRouted m (absorb_buffered m l over fx)
  unfolding absorb_buffered save_list
  absorb_buffered-Keeps m l over fx =
      Returns-if (λ r. Apart m r.0) over _ _ (fail_list-Keeps _ l Reason.overflow fx) (unchanged m)

  route_list_event-Keeps :
      (m : Machine T) (l : ListBranch T) (env : Envelope) (msg : T) (fx : Effects T)
      → KeepsRouted m (route_list_event m l env msg fx)
  unfolding route_list_event
  route_list_event-Keeps m l env msg fx =
      let P : Routed T → Type 0 = λ r. Apart m r.0 in
      let o = observed l env in
      let over = ltb o.observed_cap o.observed in
      Returns-if P (is_buffered o.phase) _ _ (absorb_buffered-Keeps m o over fx) (
        Returns-if P over _ _ (fail_list-Keeps m o Reason.overflow fx) (
          Returns-if P (is_cancel env.mark) _ _ (cancel_list-Keeps m o fx) (
            Returns-if P (completes l env) _ _ (complete_list-Keeps m o env.size msg fx)
              (enqueue_item-Keeps m o env.size msg fx))))

  route_own_list-Keeps :
      (m : Machine T) (env : Envelope) (msg : T) (fx : Effects T)
      → KeepsRouted m (route_own_list m env msg fx)
  unfolding route_own_list maybe_drop_record
  route_own_list-Keeps m env msg fx = elim (Option-cases (lookup env.action_id m.list_by_action)) [
    | inr (id, routed) ↦
        rw (routed, route_own_list)
          (elim (Option-cases (lookup id m.list_by_id)) [
            | inl gone ↦ rw gone tt
            | inr (l, found) ↦ rw found (route_list_event-Keeps m l env msg fx)
          ])
    | inl unrouted ↦
        rw (unrouted, route_own_list)
          (elim (Option-cases (lookup env.action_id m.records)) [
            | inl late ↦ rw (late, route_own_list) (unchanged m)
            | inr (r, live) ↦ rw (live, route_own_list) (unchanged m)
          ])
  ]

  -- An own event of a list action, live, retired or long forgotten, when it is routed, leaves every
  -- ordinary subscription and every follow as it was, their queues, order and charges included.
  pub route_event-Apart :
      (m n : Machine T) (env : Envelope) (msg : T) (fx gx : Effects T)
      → env.own ≡ true
      → env.kind ≡ Kind.list
      → route_event m env msg fx ≡ ok (n, gx)
      → Apart m n
  unfolding route_event route_own
  route_event-Apart m n env msg fx gx own listed e =
      Returns-ok (λ r. Apart m r.0) (route_event m env msg fx) (n, gx)
        (subst
          (λ b.
            Returns (λ r. Apart m r.0)
              (if not b then fanout m env msg fx else route_own env.kind m env msg fx))
          (sym own)
          (subst (λ k. Returns (λ r. Apart m r.0) (route_own k m env msg fx)) (sym listed)
            (route_own_list-Keeps m env msg fx)))
        e
