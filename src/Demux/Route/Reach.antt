-- ===== src/Demux/Route/Reach.antt =====
-- `fanout` of route.go returns, and what it has done to the subscriptions of the order.
use ami.Base.{
  ℕ, ◌+◌, ◌≡◌, refl, subst, sym, ◌∙◌, Bool, true, false, inl, inr, List, [], ◌∷◌, some, arith, Map,
  lookup, number_eq, nat_eq_iff, if◌then◌else◌, ok, Bool-cases,
}
use ami.Demux.Types.{Envelope, Effects, is_active}
use ami.Demux.Machine.{Machine, Subscription}
use ami.Demux.Branch.{holds}
use ami.Demux.Route.Fanout.{Spread, compact_order, fanout}
use ami.Demux.Route.Delivery.{
  if_true, IsOrder, IsListed, Reached, Delivered, Delivered-id, IsListed-IsOrder, live_order_lem,
  spread_lem,
}

module _ {T : Type 0} where
  -- What the loop has reached, name by name.
  reached_lem :
      (before after : Map ℕ (Subscription T)) (b : Bool) (ids : List ℕ) (env : Envelope) (msg : T)
      → ((j : ℕ) (s : Subscription T)
          → holds j ids ≡ true
          → lookup j before ≡ some s
          → (t : Subscription T) × (lookup j after ≡ some t)
            × Delivered env msg s t
            × (b ≡ false → is_active t.phase ≡ true))
      → IsOrder before ids
      → Reached env msg before after ids × IsListed b after ids
  unfolding holds
  reached_lem before after b [] env msg each o = (tt, tt)
  reached_lem before after b (id ∷ ids) env msg each ((s, found, keyed, active), once, rest) =
      let (t, there, given, calm) = each id s (ground (arith, nat_eq_iff id id)) found in
      let (reached, listed) =
        reached_lem before after b ids env msg (λ j r h. each j r (ground (arith, h))) rest in
      (
        ((s, t, found, there, given), reached),
        ((t, there, Delivered-id env msg s t given ∙ keyed, calm), once, listed),
      )

  -- The order after the loop, compacted or as it was.
  settle-IsOrder :
      (x : Spread T)
      → IsListed x.any_lagged x.machine.sub_by_id x.machine.sub_order
      → (c : Machine T) × ((if x.any_lagged then compact_order x.machine else ok x.machine) ≡ ok c)
        × (c.sub_by_id ≡ x.machine.sub_by_id)
        × IsOrder c.sub_by_id c.sub_order
  unfolding compact_order
  settle-IsOrder x listed = elim (Bool-cases x.any_lagged) [
    | inl some_lagged ↦
        let (live, ran, order, absent) =
          live_order_lem x.machine x.machine.sub_order x.any_lagged listed in
        (
          record x.machine { sub_order = live },
          if_true _ _ _ some_lagged ∙ (rw ran refl),
          refl,
          order,
        )
    | inr calm ↦ (
      x.machine,
      rw calm refl,
      refl,
      IsListed-IsOrder x.machine.sub_by_id x.machine.sub_order
          (subst (λ b. IsListed b x.machine.sub_by_id x.machine.sub_order) calm listed),
    )
  ]

  -- When the order names active subscriptions, each once, `fanout` of any event returns; each of
  -- them then is as it was, if its names do not select the event, or has the message queued within
  -- its caps, or is dead as lagged with an empty queue; and the order again names active
  -- subscriptions, each once.
  pub fanout-Reached :
      (m : Machine T) (env : Envelope) (msg : T) (fx : Effects T)
      → IsOrder m.sub_by_id m.sub_order
      → (r : Machine T × Effects T) × (fanout m env msg fx ≡ ok r)
        × Reached env msg m.sub_by_id r.0.sub_by_id m.sub_order
        × IsOrder r.0.sub_by_id r.0.sub_order
  unfolding fanout
  fanout-Reached m env msg fx o =
      let start : Spread T = record {
        machine = m;
        effects = fx;
        matched = false;
        any_lagged = false;
      } in
      let (x, ran, each, others, kept, calm) = spread_lem m.sub_order start env msg o in
      let (reached, listed) =
        reached_lem m.sub_by_id x.machine.sub_by_id x.any_lagged m.sub_order env msg each o in
      let (c, settled, same, order) =
        settle-IsOrder x (subst (IsListed x.any_lagged x.machine.sub_by_id) (sym kept) listed) in
      let arrived =
        subst (λ subs. Reached env msg m.sub_by_id subs m.sub_order) (sym same) reached in
      elim (Bool-cases x.matched) [
        | inl some_matched ↦
            ((c, x.effects), rw ran (rw settled (rw some_matched refl)), arrived, order)
        | inr unmatched ↦ (
          (record c { ctr = record c.ctr { unmatched = c.ctr.unmatched + 1 } }, x.effects),
          rw ran (rw settled (rw unmatched refl)),
          arrived,
          order,
        )
      ]
