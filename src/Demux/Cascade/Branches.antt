-- ===== src/Demux/Cascade/Branches.antt =====
-- The loop of the death cascade over the ordinary subscriptions.
use ami.Base.{
  ℕ, ◌-◌, ◌≡◌, subst, refl, ◌∙◌, true, false, inl, inr, List, [], ◌∷◌, ◌++◌, some, nat_eq,
  nat_eq_iff, lookup, lookup-insert, number_eq, ok, Bool-cases, Map, arith,
}
use ami.Demux.Types.{Effects, Phase, Reason}
use ami.Demux.Machine.{Machine, Subscription, save_sub, wake}
use ami.Demux.Queue
use ami.Demux.Branch.{holds}
use ami.Demux.Death.{kill_subs, terminal_sub}
use ami.Demux.Route.Delivery.{IsOrder}

holds-append : (id : ℕ) (xs ys : List ℕ) → holds id xs ≡ true → holds id (xs ++ ys) ≡ true
unfolding holds
holds-append id [] ys h = absurd (ground (arith, h))
holds-append id (x ∷ xs) ys h = ground (arith, h, holds-append id xs ys)

holds-last : (id : ℕ) (xs : List ℕ) → holds id (xs ++ (id ∷ [])) ≡ true
unfolding holds
holds-last id [] = ground (arith, (nat_eq_iff id id).1 refl)
holds-last id (x ∷ xs) = ground (arith, holds-last id xs)

not_held :
    (id u : ℕ) (us : List ℕ)
    → holds id (u ∷ us) ≡ false
    → (nat_eq u id ≡ false) × (holds id us ≡ false)
unfolding holds
not_held id u us h = (ground (arith, h), ground (arith, h))

held_behind :
    (id u : ℕ) (us : List ℕ) → nat_eq u id ≡ false → holds id (u ∷ us) ≡ true → holds id us ≡ true
unfolding holds
held_behind id u us n h = ground (arith, n, h)

module _ {T : Type 0} where
  -- The subscription has ended with the client, keeps no message, and its consumer is woken.
  pub record Ended (id : ℕ) (subs : Map ℕ (Subscription T)) (wakes : List ℕ) : Type 0 where
    pub branch : Subscription T
    pub found : lookup id subs ≡ some branch
    pub phase_lem : branch.phase ≡ Phase.dead
    pub reason_lem : branch.reason ≡ Reason.client_dead
    pub empty_lem : branch.q ≡ Queue.empty
    pub woken : holds id wakes ≡ true

  abbrev ended_sub : Subscription T → Subscription T
  ended_sub s = record s { phase = Phase.dead; reason = Reason.client_dead; q = Queue.empty }

  abbrev after_sub : Machine T → Subscription T → Machine T
  after_sub m s = save_sub (record m { sub_bytes = m.sub_bytes - s.q.bytes }) (ended_sub s)

  saved_other :
      (m : Machine T) (s : Subscription T) (u : ℕ)
      → nat_eq s.id u ≡ false
      → lookup u (after_sub m s).sub_by_id ≡ lookup u m.sub_by_id
  saved_other m s u n = lookup-insert s.id u (ended_sub s) m.sub_by_id ∙ rw n refl

  IsOrder-rest :
      (m : Machine T) (s : Subscription T) (ids : List ℕ)
      → holds s.id ids ≡ false
      → IsOrder m.sub_by_id ids
      → IsOrder (after_sub m s).sub_by_id ids
  unfolding holds
  IsOrder-rest m s [] n o = tt
  IsOrder-rest m s (u ∷ us) n ((x, found, keyed, active), once, rest) = (
    (x, saved_other m s u (ground (arith, n)) ∙ found, keyed, active),
    once,
    IsOrder-rest m s us (ground (arith, n)) rest,
  )

  -- What the loop returns for the subscriptions of the list; the others are as they were.
  record SubsSwept (m : Machine T) (fx : Effects T) (ids : List ℕ) (r : Machine T × Effects T)
      : Type 0 where
    returned : kill_subs ids m fx ≡ ok r
    kept : (id : ℕ) → holds id fx.wakes ≡ true → holds id r.1.wakes ≡ true
    others : (id : ℕ) → holds id ids ≡ false → lookup id r.0.sub_by_id ≡ lookup id m.sub_by_id
    swept : (id : ℕ) → holds id ids ≡ true → Ended id r.0.sub_by_id r.1.wakes

  kill_subs-SubsSwept :
      (ids : List ℕ) (m : Machine T) (fx : Effects T)
      → IsOrder m.sub_by_id ids
      → (r : Machine T × Effects T) × SubsSwept m fx ids r
  unfolding kill_subs terminal_sub holds
  kill_subs-SubsSwept [] m fx o = (
    (m, fx),
    record {
      returned = refl;
      kept = λ id h. h;
      others = λ id h. refl;
      swept = λ id i. absurd (ground (arith, i));
    },
  )
  kill_subs-SubsSwept (u ∷ us) m fx ((s, found, keyed, active), once, rest) =
      let (r, v) =
        kill_subs-SubsSwept us (after_sub m s) (wake fx s.id)
          (IsOrder-rest m s us (rw keyed once) rest) in
      (
        r,
        record {
          returned = rw found (rw active v.returned);
          kept = λ id h. v.kept id (holds-append id fx.wakes (s.id ∷ []) h);
          others = λ id n.
              let (first, behind) = not_held id u us n in
              v.others id behind ∙ saved_other m s id (rw keyed first);
          swept = λ id i. elim (Bool-cases (nat_eq u id)) [
            | inr n ↦ v.swept id (held_behind id u us n i)
            | inl e ↦
                subst (λ (x : ℕ). Ended x r.0.sub_by_id r.1.wakes) (keyed ∙ (nat_eq_iff u id).0 e)
                  (record {
                    branch = ended_sub s;
                    found =
                        v.others s.id (rw keyed once)
                        ∙ lookup-insert s.id s.id (ended_sub s) m.sub_by_id
                        ∙ rw ((nat_eq_iff s.id s.id).1 refl) refl;
                    phase_lem = refl;
                    reason_lem = refl;
                    empty_lem = refl;
                    woken = v.kept s.id (holds-last s.id fx.wakes);
                  })
          ];
        },
      )

  -- The loop of the death cascade over the order of the subscriptions, on a machine whose order names
  -- active subscriptions under their own ids and each of them once. It returns, and every subscription
  -- of the order has ended because the client is dead, with nothing left in its queue, and its consumer
  -- is woken.
  pub kill_subs-Ended :
      (m : Machine T) (fx : Effects T) (id : ℕ)
      → IsOrder m.sub_by_id m.sub_order
      → holds id m.sub_order ≡ true
      → (r : Machine T × Effects T) × (kill_subs m.sub_order m fx ≡ ok r)
        × Ended id r.0.sub_by_id r.1.wakes
  kill_subs-Ended m fx id o h =
      let (r, v) = kill_subs-SubsSwept m.sub_order m fx o in (r, v.returned, v.swept id h)
