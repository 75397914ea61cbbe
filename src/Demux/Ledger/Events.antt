-- ===== src/Demux/Ledger/Events.antt =====
-- The fan-out and the follows keep the accounting.
use ami.Base.{
  ℕ, suc, ◌+◌, ◌-◌, ◌≤◌, ◌≡◌, refl, subst, sym, Bool, true, false, not, inl, inr, List, [], ◌∷◌,
  some, arith, lookup, total-delete, number_eq, string_eq, delete, if◌then◌else◌, ok, Bool-cases,
  Option-cases,
}
use ami.Demux.Types.{Envelope, Reason, Phase, Caps, Effects, is_active}
use ami.Demux.Machine.{
  Machine, Subscription, Follow, sub_charge, follow_charge, save_sub, save_follow,
}
use ami.Demux.Names.{selects, declares}
use ami.Demux.Queue.{Queue, len, push}
use ami.Demux.Queue
use ami.Demux.Death.{terminal_sub, terminal_follow}
use ami.Demux.Route.Fanout.{
  Spread, reserve_sub_family, spread_to, spread, live_order, compact_order, fanout,
}
use ami.Demux.Route.{deliver_follow, route_follow_event, route_to_follow}
use ami.Demux.Ledger.{IsSound, QueueFits, Safe}
use ami.Demux.Ledger.Checks.{Safe-bind, Safe-if}
use ami.Demux.Ledger.Subs.{
  empty-QueueFits, push-QueueFits, put_sub, put_follow, sub_held, follow_held,
}
use ami.Demux.Ledger.ListEvents.{SoundAfter, recount}
use ami.Demux.Ledger.Records.{unfollow-IsSound}

module _ {T : Type 0} where
  reserve_sub_family_lem :
      (m : Machine T) (q : Queue T) (caps : Caps) (size : ℕ)
      → reserve_sub_family m q caps size ≡ true
      → (suc (len q) ≤ caps.items)
        × (q.bytes + size ≤ caps.bytes)
        × (m.sub_bytes + size ≤ m.lim.max_subscription_bytes)
  unfolding reserve_sub_family
  reserve_sub_family_lem m q caps size h = ground arith

module _ {T : Type 0} (m : Machine T) (v : IsSound m) where
  -- A subscription is written over `old`, and the aggregate follows.
  pub write_sub :
      (s old : Subscription T) (bytes : ℕ)
      → lookup s.id m.sub_by_id ≡ some old
      → QueueFits s.caps s.q
      → bytes + old.q.bytes ≡ m.sub_bytes + s.q.bytes
      → bytes ≤ m.lim.max_subscription_bytes
      → IsSound (save_sub (record m { sub_bytes = bytes }) s)
  write_sub s old bytes found fits eb room = record {
    subs = put_sub v.subs s old bytes found fits eb room;
    lists = v.lists;
    slots = v.slots;
    quiet = v.quiet;
  }

  pub write_follow :
      (f old : Follow T) (bytes : ℕ)
      → lookup f.id m.fol_by_id ≡ some old
      → QueueFits f.caps f.q
      → bytes + old.q.bytes ≡ m.sub_bytes + f.q.bytes
      → bytes ≤ m.lim.max_subscription_bytes
      → IsSound (save_follow (record m { sub_bytes = bytes }) f)
  write_follow f old bytes found fits eb room = record {
    subs = put_follow v.subs f old bytes found fits eb room;
    lists = v.lists;
    slots = v.slots;
    quiet = v.quiet;
  }

  pub sub_bytes-sum :
      (id : ℕ) (s : Subscription T) → lookup id m.sub_by_id ≡ some s → s.q.bytes ≤ m.sub_bytes
  sub_bytes-sum id s found =
      omega (arith, total-delete sub_charge id s m.sub_by_id found, v.subs.balance)

  pub follow_bytes-sum :
      (id : ℕ) (f : Follow T) → lookup id m.fol_by_id ≡ some f → f.q.bytes ≤ m.sub_bytes
  follow_bytes-sum id f found =
      omega (arith, total-delete follow_charge id f m.fol_by_id found, v.subs.balance)

  pub sub_here :
      (id : ℕ) (s : Subscription T)
      → lookup id m.sub_by_id ≡ some s
      → lookup s.id m.sub_by_id ≡ some s
  sub_here id s found =
      subst (λ x. lookup x m.sub_by_id ≡ some s) (sym (sub_held v.subs id s found).keyed) found

  pub follow_here :
      (id : ℕ) (f : Follow T) → lookup id m.fol_by_id ≡ some f → lookup f.id m.fol_by_id ≡ some f
  follow_here id f found =
      subst (λ x. lookup x m.fol_by_id ≡ some f) (sym (follow_held v.subs id f found).keyed) found

  pub terminal_sub-Safe :
      (s : Subscription T) (reason : Reason) (fx : Effects T)
      → lookup s.id m.sub_by_id ≡ some s
      → Safe SoundAfter (terminal_sub m s reason fx)
  unfolding terminal_sub
  terminal_sub-Safe s reason fx found =
      Safe-if SoundAfter (not (is_active s.phase)) _ _ (λ _. refl)
        λ _.
          write_sub (record s { phase = Phase.dead; reason = reason; q = Queue.empty }) s
            (m.sub_bytes - s.q.bytes) found (empty-QueueFits s.caps)
            (omega (arith, sub_bytes-sum s.id s found)) (omega (arith, v.subs.room))

module _ {T : Type 0} where
  pub terminal_follow-Safe :
      (m : Machine T) (f : Follow T) (reason : Reason) (fx : Effects T)
      → IsSound m
      → lookup f.id m.fol_by_id ≡ some f
      → Safe SoundAfter (terminal_follow m f reason fx)
  unfolding terminal_follow
  terminal_follow-Safe m f reason fx v found =
      Safe-if SoundAfter (not (is_active f.phase)) _ _ (λ _. refl)
        λ _.
          write_follow (record m { fol_by_action = delete f.action_id m.fol_by_action })
            (unfollow-IsSound m v f.action_id)
            (record f { phase = Phase.dead; reason = reason; q = Queue.empty }) f
            (m.sub_bytes - f.q.bytes) found (empty-QueueFits f.caps)
            (omega (arith, follow_bytes-sum m v f.id f found)) (omega (arith, v.subs.room))

  deliver_follow-Safe :
      (m : Machine T) (f : Follow T) (completes : Bool) (env : Envelope) (msg : T) (fx : Effects T)
      → IsSound m
      → lookup f.id m.fol_by_id ≡ some f
      → Safe SoundAfter (deliver_follow m f completes env msg fx)
  unfolding deliver_follow push
  deliver_follow-Safe m f completes env msg fx v found =
      elim (Bool-cases (reserve_sub_family m f.q f.caps env.size)) [
        | inr full ↦ rw full (terminal_follow-Safe m f Reason.lagged fx v found)
        | inl room ↦
            let (few, light, wide) = reserve_sub_family_lem m f.q f.caps env.size room in
            let fits =
              push-QueueFits f.caps f.q msg env.size (follow_held v.subs f.id f found).fits few
                light in
            rw room (
              Safe-if SoundAfter completes _ _
                (λ _.
                  write_follow (record m { fol_by_action = delete f.action_id m.fol_by_action })
                    (unfollow-IsSound m v f.action_id)
                    (record f { q = push f.q msg env.size; phase = Phase.draining }) f
                    (m.sub_bytes + env.size) found fits (omega arith) wide)
                λ _.
                  write_follow m v (record f { q = push f.q msg env.size }) f
                    (m.sub_bytes + env.size) found fits (omega arith) wide)
      ]

  pub route_follow_event-Safe :
      (m : Machine T) (f : Follow T) (env : Envelope) (msg : T) (fx : Effects T)
      → IsSound m
      → lookup f.id m.fol_by_id ≡ some f
      → Safe SoundAfter (route_follow_event m f env msg fx)
  unfolding route_follow_event
  route_follow_event-Safe m f env msg fx v found =
      Safe-if SoundAfter (declares f.completions env.name) _ _
        (λ _. deliver_follow-Safe m f true env msg fx v found)
        λ _.
          Safe-if SoundAfter (not (selects f.events env.name)) _ _ (λ _. v)
            λ _. deliver_follow-Safe m f false env msg fx v found

  spread_to-Safe :
      (x : Spread T) (s : Subscription T) (env : Envelope) (msg : T)
      → IsSound x.machine
      → lookup s.id x.machine.sub_by_id ≡ some s
      → Safe (λ y. IsSound y.machine) (spread_to x s env msg)
  unfolding spread_to push
  spread_to-Safe x s env msg v found =
      Safe-if (λ y. IsSound y.machine) (not (selects s.names env.name)) _ _ (λ _. v)
        λ _.
          Safe-if (λ y. IsSound y.machine) (reserve_sub_family x.machine s.q s.caps env.size) _ _
            (λ room.
              let (few, light, wide) = reserve_sub_family_lem x.machine s.q s.caps env.size room in
              write_sub x.machine v (record s { q = push s.q msg env.size }) s
                (x.machine.sub_bytes + env.size) found
                (push-QueueFits s.caps s.q msg env.size (sub_held v.subs s.id s found).fits few
                  light)
                (omega arith) wide)
            λ _.
              Safe-bind SoundAfter (λ y. IsSound y.machine) _ _
                (terminal_sub-Safe x.machine v s Reason.lagged x.effects found) λ r e w. w

  spread-Safe :
      (ids : List ℕ) (x : Spread T) (env : Envelope) (msg : T)
      → IsSound x.machine
      → Safe (λ y. IsSound y.machine) (spread ids x env msg)
  unfolding spread
  spread-Safe [] x env msg v = v
  spread-Safe (id ∷ ids) x env msg v = elim (Option-cases (lookup id x.machine.sub_by_id)) [
    | inl gone ↦ rw gone refl
    | inr (s, found) ↦ rw found (
        Safe-bind (λ y. IsSound y.machine) (λ y. IsSound y.machine) _ _
          (spread_to-Safe x s env msg v (sub_here x.machine v id s found))
          λ y e w. spread-Safe ids y env msg w)
  ]

  live_order-nil :
      (m : Machine T) (ids : List ℕ) → ids ≡ [] → Safe (λ live. live ≡ []) (live_order m ids)
  unfolding live_order
  live_order-nil m [] e = refl
  live_order-nil m (id ∷ ids) e = absurd (cc)

  live_order-Safe : (m : Machine T) (ids : List ℕ) → Safe (λ live. Unit {0}) (live_order m ids)
  unfolding live_order
  live_order-Safe m [] = tt
  live_order-Safe m (id ∷ ids) = elim (Option-cases (lookup id m.sub_by_id)) [
    | inl gone ↦ rw gone refl
    | inr (s, found) ↦
        rw found (
          Safe-bind (λ live. Unit {0}) (λ live. Unit {0}) _ _ (live_order-Safe m ids)
            λ live e w. tt)
  ]

  compact_order-Safe : (m : Machine T) → IsSound m → Safe IsSound (compact_order m)
  unfolding compact_order
  compact_order-Safe m v =
      Safe-bind (λ live. Unit {0}) IsSound _ _ (live_order-Safe m m.sub_order)
        λ live e w. record {
          subs = v.subs;
          lists = v.lists;
          slots = v.slots;
          quiet = λ d.
              let q = v.quiet d in
              record {
                no_records = q.no_records;
                no_order = rw e at (live_order-nil m m.sub_order q.no_order);
                no_follows = q.no_follows;
                no_lists = q.no_lists;
                no_pendings = q.no_pendings;
                no_holds = q.no_holds;
                all_completed = q.all_completed;
              };
        }

  -- From a sound machine, `fanout` of any event, the lagged subscriptions and the compaction of the
  -- order included, returns a sound machine, or stops at a violation that is not one of those that
  -- `check` reports.
  pub fanout-Safe :
      (m : Machine T) (env : Envelope) (msg : T) (fx : Effects T)
      → IsSound m
      → Safe SoundAfter (fanout m env msg fx)
  unfolding fanout
  fanout-Safe m env msg fx v =
      Safe-bind (λ y. IsSound y.machine) SoundAfter _ _ (spread-Safe m.sub_order _ env msg v)
        λ x e w.
          Safe-bind IsSound SoundAfter
            (if x.any_lagged then compact_order x.machine else ok x.machine) _
            (Safe-if IsSound x.any_lagged _ _ (λ _. compact_order-Safe x.machine w) λ _. w)
            λ c e u. counted c x.matched u
    where
      counted :
          (c : Machine T) (matched : Bool)
          → IsSound c
          → IsSound (
              if matched
              then c
              else record c { ctr = record c.ctr { unmatched = c.ctr.unmatched + 1 } })
      counted c true u = u
      counted c false u = recount u

  pub route_to_follow-Safe :
      (m : Machine T) (env : Envelope) (msg : T) (fx : Effects T)
      → IsSound m
      → Safe SoundAfter (route_to_follow m env msg fx)
  unfolding route_to_follow
  route_to_follow-Safe m env msg fx v = elim (Option-cases (lookup env.action_id m.fol_by_action)) [
    | inl none_routed ↦ rw (none_routed, route_to_follow) v
    | inr (id, routed) ↦
        rw (routed, route_to_follow)
          (elim (Option-cases (lookup id m.fol_by_id)) [
            | inl gone ↦ rw gone refl
            | inr (f, found) ↦
                rw found (route_follow_event-Safe m f env msg fx v (follow_here m v id f found))
          ])
  ]
