-- ===== src/Demux/Route/Delivery.antt =====
-- What `fanout` of route.go does to each ordinary subscription, and that it always returns.
use ami.Base.{
  ℕ, ◌+◌, ◌-◌, ◌≤◌, ◌<◌, ◌≡◌, refl, subst, sym, ◌∙◌, ap, Bool, true, false, inl, inr, List, [], ◌∷◌,
  some, arith, Map, lookup, lookup-insert, ◌==◌, number_eq, nat_eq, nat_eq_iff, if◌then◌else◌, ok,
  Bool-cases,
}
use ami.Demux.Types.{Envelope, Reason, Phase, is_active}
use ami.Demux.Machine.{Machine, Subscription, save_sub, wake}
use ami.Demux.Names.{selects}
use ami.Demux.Queue.{len, push, empty}
use ami.Demux.Death.{terminal_sub}
use ami.Demux.Branch.{holds}
use ami.Demux.Route.Fanout.{Spread, reserve_sub_family, spread_to, spread, live_order}

pub if_true : {A : Type 0} (b : Bool) (x y : A) → b ≡ true → (if b then x else y) ≡ x
if_true b x y e = rw e

if_false : {A : Type 0} (b : Bool) (x y : A) → b ≡ false → (if b then x else y) ≡ y
if_false b x y e = rw e

same_found : {A : Type 0} (a b : A) → some a ≡ some b → a ≡ b
same_found a b e = ground arith

module _ {T : Type 0} where
  -- The order names active subscriptions, each of them once.
  abbrev pub IsOrder : Map ℕ (Subscription T) → List ℕ → Type 0
  IsOrder subs [] = Unit
  IsOrder subs (id ∷ ids) =
      ((s : Subscription T) × (lookup id subs ≡ some s) × (s.id ≡ id) × (is_active s.phase ≡ true))
      × (holds id ids ≡ false)
      × IsOrder subs ids

  -- What an event does to a subscription: it is not selected and stays as it is, or it gets the
  -- message within its caps, or it ends as lagged with its queue discarded.
  pub data Delivered (env : Envelope) (msg : T) (s : Subscription T) : Subscription T → Type 0 where
    skipped : selects s.names env.name ≡ false → Delivered env msg s s
    queued :
        selects s.names env.name ≡ true
        → len s.q < s.caps.items
        → s.q.bytes + env.size ≤ s.caps.bytes
        → Delivered env msg s (record s { q = push s.q msg env.size })
    lagged :
        selects s.names env.name ≡ true
        → Delivered env msg s (record s { phase = Phase.dead; reason = Reason.lagged; q = empty })

  -- Each subscription that the list names has become one that `Delivered` allows.
  abbrev pub Reached :
      Envelope → T → Map ℕ (Subscription T) → Map ℕ (Subscription T) → List ℕ → Type 0
  Reached env msg before after [] = Unit
  Reached env msg before after (id ∷ ids) =
      ((s : Subscription T) × (t : Subscription T) × (lookup id before ≡ some s)
        × (lookup id after ≡ some t)
        × Delivered env msg s t)
      × Reached env msg before after ids

  pub Delivered-id :
      (env : Envelope) (msg : T) (s t : Subscription T) → Delivered env msg s t → t.id ≡ s.id
  Delivered-id env msg s _ (skipped c) = refl
  Delivered-id env msg s _ (queued c few light) = refl
  Delivered-id env msg s _ (lagged c) = refl

  -- The order names registered subscriptions, each of them once; all are active unless one has lagged.
  abbrev pub IsListed : Bool → Map ℕ (Subscription T) → List ℕ → Type 0
  IsListed any_lagged subs [] = Unit
  IsListed any_lagged subs (id ∷ ids) =
      ((s : Subscription T) × (lookup id subs ≡ some s)
        × (s.id ≡ id)
        × (any_lagged ≡ false → is_active s.phase ≡ true))
      × (holds id ids ≡ false)
      × IsListed any_lagged subs ids

  pub IsListed-IsOrder :
      (subs : Map ℕ (Subscription T)) (ids : List ℕ) → IsListed false subs ids → IsOrder subs ids
  IsListed-IsOrder subs [] o = tt
  IsListed-IsOrder subs (id ∷ ids) ((s, found, keyed, active), once, rest) =
      ((s, found, keyed, active refl), once, IsListed-IsOrder subs ids rest)

  -- The compaction returns, and keeps the active subscriptions of the list.
  pub live_order_lem :
      (m : Machine T) (ids : List ℕ) (b : Bool)
      → IsListed b m.sub_by_id ids
      → (live : List ℕ) × (live_order m ids ≡ ok live)
        × IsOrder m.sub_by_id live
        × ((j : ℕ) → holds j ids ≡ false → holds j live ≡ false)
  unfolding live_order holds
  live_order_lem m [] b o = ([], refl, tt, λ j h. h)
  live_order_lem m (id ∷ ids) b ((s, found, keyed, active), once, rest) =
      let (live, ran, order, absent) = live_order_lem m ids b rest in
      elim (Bool-cases (is_active s.phase)) [
        | inl on ↦ (
          id ∷ live,
          rw found (rw ran (rw on refl)),
          ((s, found, keyed, on), absent id once, order),
          λ j h. ground (arith, absent j, h),
        )
        | inr off ↦
            (live, rw found (rw ran (rw off refl)), order, λ j h. absent j (ground (arith, h)))
      ]

  -- One round returns, and writes only the subscription that it is at.
  spread_to_lem :
      (x : Spread T) (s : Subscription T) (env : Envelope) (msg : T)
      → lookup s.id x.machine.sub_by_id ≡ some s
      → is_active s.phase ≡ true
      → (y : Spread T) × (spread_to x s env msg ≡ ok y)
        × ((t : Subscription T) × Delivered env msg s t
            × (y.any_lagged ≡ false → is_active t.phase ≡ true)
            × ((j : ℕ)
                → lookup j y.machine.sub_by_id
                  ≡ (if s.id == j then some t else lookup j x.machine.sub_by_id)))
        × (y.machine.sub_order ≡ x.machine.sub_order)
        × (y.any_lagged ≡ false → x.any_lagged ≡ false)
  unfolding spread_to terminal_sub reserve_sub_family
  spread_to_lem x s env msg found active = elim (Bool-cases (selects s.names env.name)) [
    | inr other ↦ (
      x,
      rw other refl,
      (s, skipped other, (λ c. active), λ j. ground (arith, number_eq.same_iff s.id j)),
      refl,
      λ c. c,
    )
    | inl chosen ↦ elim (Bool-cases (reserve_sub_family x.machine s.q s.caps env.size)) [
      | inl room ↦ (
        record x {
          machine =
              save_sub (record x.machine { sub_bytes = x.machine.sub_bytes + env.size })
                (record s { q = push s.q msg env.size });
          effects = wake x.effects s.id;
          matched = true;
        },
        rw (chosen, room) refl,
        (
          record s { q = push s.q msg env.size },
          queued chosen (ground arith) (ground arith),
          (λ c. active),
          λ j. lookup-insert s.id j _ x.machine.sub_by_id,
        ),
        refl,
        (λ c. c),
      )
      | inr full ↦ (
        record {
          machine =
              save_sub (record x.machine { sub_bytes = x.machine.sub_bytes - s.q.bytes })
                (record s { phase = Phase.dead; reason = Reason.lagged; q = empty });
          effects = wake x.effects s.id;
          matched = true;
          any_lagged = true;
        },
        rw (chosen, full, active) refl,
        (
          record s { phase = Phase.dead; reason = Reason.lagged; q = empty },
          lagged chosen,
          (λ c. absurd (cc)),
          λ j. lookup-insert s.id j _ x.machine.sub_by_id,
        ),
        refl,
        (λ c. absurd (cc)),
      )
    ]
  ]

  -- A subscription that is written does not disturb the order behind it.
  IsOrder-written :
      (subs after : Map ℕ (Subscription T)) (id : ℕ) (t : Subscription T) (ids : List ℕ)
      → ((j : ℕ) → lookup j after ≡ (if id == j then some t else lookup j subs))
      → holds id ids ≡ false
      → IsOrder subs ids
      → IsOrder after ids
  unfolding holds
  IsOrder-written subs after id t [] w absent o = tt
  IsOrder-written subs after id t (j ∷ ids) w absent ((s, found, keyed, active), once, rest) = (
    (s, (w j ∙ ground (arith, number_eq.same_iff id j, number_eq.same_iff j id)), keyed, active),
    once,
    IsOrder-written subs after id t ids w (ground arith) rest,
  )

  -- The loop returns, and does to each subscription what `Delivered` says.
  pub spread_lem :
      (ids : List ℕ) (x : Spread T) (env : Envelope) (msg : T)
      → IsOrder x.machine.sub_by_id ids
      → (y : Spread T) × (spread ids x env msg ≡ ok y)
        × ((j : ℕ) (s : Subscription T)
            → holds j ids ≡ true
            → lookup j x.machine.sub_by_id ≡ some s
            → (t : Subscription T) × (lookup j y.machine.sub_by_id ≡ some t)
              × Delivered env msg s t
              × (y.any_lagged ≡ false → is_active t.phase ≡ true))
        × ((j : ℕ)
            → holds j ids ≡ false
            → lookup j y.machine.sub_by_id ≡ lookup j x.machine.sub_by_id)
        × (y.machine.sub_order ≡ x.machine.sub_order)
        × (y.any_lagged ≡ false → x.any_lagged ≡ false)
  unfolding spread holds
  spread_lem [] x env msg o = (x, refl, (λ j s h. absurd (cc)), (λ j h. refl), refl, λ c. c)
  spread_lem (id ∷ ids) x env msg ((s, found, keyed, active), once, rest) =
      let at = subst (λ i. lookup i x.machine.sub_by_id ≡ some s) (sym keyed) found in
      let (y, stepped, (t, given, calm, writes), same, calm_before) =
        spread_to_lem x s env msg at active in
      let (z, ran, reached, others, kept, calm_after) = spread_lem ids y env msg (
        IsOrder-written x.machine.sub_by_id y.machine.sub_by_id s.id t ids writes (rw keyed once)
          rest) in
      (
        z,
        rw found (rw stepped ran),
        (λ j r h l. elim (Bool-cases (nat_eq id j)) [
          | inr other ↦
              reached j r (ground (arith, h, other))
                (writes j ∙ if_false _ _ _ (ap (λ i. nat_eq i j) keyed ∙ other) ∙ l)
          | inl here ↦
              let e = (nat_eq_iff id j).0 here in
              let own : r ≡ s =
                same_found r s
                  (sym (subst (λ i. lookup i x.machine.sub_by_id ≡ some r) (sym e) l) ∙ found) in
              (
                t,
                others j (subst (λ i. holds i ids ≡ false) e once)
                    ∙ writes j
                    ∙ if_true _ _ _ (ap (λ i. nat_eq i j) keyed ∙ here),
                subst (λ i. Delivered env msg i t) (sym own) given,
                λ c. calm (calm_after c),
              )
        ]),
        (λ j h.
            others j (ground (arith, h))
            ∙ writes j
            ∙ if_false _ _ _ (ap (λ i. nat_eq i j) keyed ∙ (ground (arith, h)))),
        kept ∙ same,
        λ c. calm_before (calm_after c),
      )
