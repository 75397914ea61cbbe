-- ===== src/Demux/Cascade.antt =====
-- What the death cascade of demux.go leaves behind.
pub mod Waiters
pub mod Branches
use ami.Base.{
  ℕ, ◌≡◌, refl, ◌∙◌, Bool, true, false, not, inl, inr, List, [], ◌∷◌, Option, some, none, nat_eq,
  nat_eq_iff, lookup, number_eq, string_eq, if◌then◌else◌, Outcome, ok, err, keys, Bool-cases,
}
use ami.Demux.Types.{Reason, Effects, Violation, Pending, is_active, is_completed}
use ami.Demux.Machine.{Machine, Subscription, Follow, ListBranch, no_effects, save_list, or_nil}
use ami.Demux.Retire.{discard_list}
use ami.Demux.Death.{
  is_settled, release_ret_hold, maybe_release_ticket, terminal_sub, terminal_follow, kill_pending,
  kill_pendings, kill_subs, kill_follow, kill_follows, kill_list, kill_lists, bury, kill_cascade,
}
use ami.Demux.Returns.{Returns, Returns-if, Returns-bind}

found_or_not : {A : Type 0} (o : Option A) → Returns (λ a. Unit) (or_nil o)
found_or_not none = tt
found_or_not (some a) = tt

pub either : {A : Type 0} (P : A → Type 0) (b : Bool) (x y : A) → P x → P y → P (if b then x else y)
either P true x y p q = p
either P false x y p q = q

module _ {T : Type 0} where
  -- What the loops of the cascade leave alone.
  abbrev Marked : Machine T → Machine T → Type 0
  Marked m n = (n.dead ≡ m.dead) × (n.dead_reason ≡ m.dead_reason) × (n.sub_order ≡ m.sub_order)

  abbrev MarkedAfter : Machine T → Outcome Violation (Machine T × Effects T) → Type 0
  MarkedAfter m o = Returns (λ r. Marked m r.0) o

  same : (m : Machine T) → Marked m m
  same m = (refl, refl, refl)

  also : (a b c : Machine T) → Marked a b → Marked b c → Marked a c
  also a b c (d, r, s) (d', r', s') = (d' ∙ d, r' ∙ r, s' ∙ s)

  then_loop :
      (m n : Machine T) (o : Outcome Violation (Machine T × Effects T))
      → Marked m n
      → MarkedAfter n o
      → MarkedAfter m o
  then_loop m n (ok r) w v = also m n r.0 w v
  then_loop m n (err e) w v = tt

  kill_pending-Marked :
      (m : Machine T) (fx : Effects T) (p : Pending) → Marked m (kill_pending m fx p).0
  unfolding kill_pending release_ret_hold maybe_release_ticket
  kill_pending-Marked m fx p =
      either (λ (r : Machine T × Effects T). Marked m r.0) (is_completed p.state) _ _ (same m)
        (either (Marked m) (not p.ret_held) _ _ (same m) (same m))

  terminal_sub-Marked :
      (m : Machine T) (s : Subscription T) (reason : Reason) (fx : Effects T)
      → MarkedAfter m (terminal_sub m s reason fx)
  unfolding terminal_sub
  terminal_sub-Marked m s reason fx =
      Returns-if (λ r. Marked m r.0) (not (is_active s.phase)) _ _ tt (same m)

  kill_follow-Marked :
      (m : Machine T) (fx : Effects T) (f : Follow T) → MarkedAfter m (kill_follow m fx f)
  unfolding kill_follow terminal_follow
  kill_follow-Marked m fx f =
      Returns-if (λ r. Marked m r.0) (is_active f.phase) _ _
        (Returns-if (λ r. Marked m r.0) (not (is_active f.phase)) _ _ tt (same m)) (same m)

  kill_list-Marked :
      (m : Machine T) (fx : Effects T) (l : ListBranch T) → Marked m (kill_list m fx l).0
  unfolding kill_list discard_list save_list
  kill_list-Marked m fx l =
      either (λ (r : Machine T × Effects T). Marked m r.0) (is_settled l.phase) _ _ (same m)
        (either (Marked m) l.ret_held _ _ (same m) (same m))

  kill_pendings-Marked :
      (ts : List ℕ) (m : Machine T) (fx : Effects T) → MarkedAfter m (kill_pendings ts m fx)
  unfolding kill_pendings
  kill_pendings-Marked [] m fx = same m
  kill_pendings-Marked (t ∷ ts) m fx =
      Returns-bind (λ p. Unit) (λ r. Marked m r.0) _ _ (found_or_not (lookup t m.pend_by_ticket))
        λ p u.
          then_loop m (kill_pending m fx p).0 _ (kill_pending-Marked m fx p)
            (kill_pendings-Marked ts _ _)

  kill_subs-Marked :
      (ids : List ℕ) (m : Machine T) (fx : Effects T) → MarkedAfter m (kill_subs ids m fx)
  unfolding kill_subs
  kill_subs-Marked [] m fx = same m
  kill_subs-Marked (id ∷ ids) m fx =
      Returns-bind (λ s. Unit) (λ r. Marked m r.0) _ _ (found_or_not (lookup id m.sub_by_id))
        λ s u.
          Returns-bind (λ r. Marked m r.0) (λ r. Marked m r.0) _ _
            (terminal_sub-Marked m s Reason.client_dead fx)
            λ r w. then_loop m r.0 _ w (kill_subs-Marked ids r.0 r.1)

  kill_follows-Marked :
      (ids : List ℕ) (m : Machine T) (fx : Effects T) → MarkedAfter m (kill_follows ids m fx)
  unfolding kill_follows
  kill_follows-Marked [] m fx = same m
  kill_follows-Marked (id ∷ ids) m fx =
      Returns-bind (λ s. Unit) (λ r. Marked m r.0) _ _ (found_or_not (lookup id m.fol_by_id))
        λ f u.
          Returns-bind (λ r. Marked m r.0) (λ r. Marked m r.0) _ _ (kill_follow-Marked m fx f)
            λ r w. then_loop m r.0 _ w (kill_follows-Marked ids r.0 r.1)

  kill_lists-Marked :
      (ids : List ℕ) (m : Machine T) (fx : Effects T) → MarkedAfter m (kill_lists ids m fx)
  unfolding kill_lists
  kill_lists-Marked [] m fx = same m
  kill_lists-Marked (id ∷ ids) m fx =
      Returns-bind (λ s. Unit) (λ r. Marked m r.0) _ _ (found_or_not (lookup id m.list_by_id))
        λ l u.
          then_loop m (kill_list m fx l).0 _ (kill_list-Marked m fx l) (kill_lists-Marked ids _ _)

  abbrev Buried : Reason → Machine T × Effects T → Type 0
  Buried cause r =
      (r.0.dead ≡ true)
      × (r.0.dead_reason ≡ cause)
      × (r.0.sub_order ≡ [])
      × (r.0.records ≡ [])
      × (r.0.internal_ret_held ≡ false)
      × (r.0.ret_held ≡ 0)

  bury-Buried :
      (m : Machine T) (cause : Reason) (fx : Effects T)
      → m.dead ≡ true
      → m.dead_reason ≡ cause
      → m.sub_order ≡ []
      → Returns (Buried cause) (bury m fx)
  unfolding bury
  bury-Buried m cause fx d r o = elim (Bool-cases (nat_eq m.ret_held 0)) [
    | inl none_held ↦
        rw (none_held, bury) (d, r, o, refl, refl, (nat_eq_iff m.ret_held 0).0 none_held)
    | inr held ↦ rw (held, bury) tt
  ]

  -- When the cascade of a death returns, the machine is dead for the cause that was given, its order
  -- and its records are empty, and no retirement slot is held.
  kill_cascade-Buried :
      (m : Machine T) (cause : Reason) → Returns (Buried cause) (kill_cascade m cause)
  unfolding kill_cascade
  kill_cascade-Buried m cause =
      let dying = record m { dead = true; dead_reason = cause } in
      Returns-bind (λ r. Marked dying r.0) (Buried cause) _ _
        (kill_pendings-Marked (keys dying.pend_by_ticket) dying no_effects)
        λ a (da, ra, oa).
          Returns-bind (λ r. Marked a.0 r.0) (Buried cause) _ _
            (kill_subs-Marked a.0.sub_order a.0 a.1)
            λ b (db, rb, ob).
              let c = record b.0 { sub_order = [] } in
              Returns-bind (λ r. Marked c r.0) (Buried cause) _ _
                (kill_follows-Marked (keys c.fol_by_id) c b.1)
                λ d (dd, rd, od).
                  Returns-bind (λ r. Marked d.0 r.0) (Buried cause) _ _
                    (kill_lists-Marked (keys d.0.list_by_id) d.0 d.1)
                    λ e (de, re, oe).
                      bury-Buried e.0 cause e.1 (de ∙ dd ∙ db ∙ da) (re ∙ rd ∙ rb ∙ ra) (oe ∙ od)
