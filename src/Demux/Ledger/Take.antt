-- ===== src/Demux/Ledger/Take.antt =====
-- `Take` keeps the accounting.
use ami.Base.{
  ℕ, ◌-◌, ◌≡◌, refl, subst, sym, not, inl, inr, Option, some, arith, lookup, number_eq, string_eq,
  ltb, Option-cases, ltb→lt,
}
use ami.Demux.Types.{Phase, ListPhase}
use ami.Demux.Machine.{Machine, Subscription, Follow, ListBranch}
use ami.Demux.Queue.{len}
use ami.Demux.Branch.{
  Taken, item_taken, take_sub, take_follow, take_list, list_rest, take_one, next_of_sub,
  next_of_follow, next_of_list,
}
use ami.Demux.Ledger.{IsSound, Safe}
use ami.Demux.Ledger.Checks.{Safe-if, check_lem}
use ami.Demux.Ledger.Subs.{pop-Popped, sub_held, follow_held}
use ami.Demux.Ledger.Events.{
  write_sub, write_follow, sub_here, follow_here, sub_bytes-sum, follow_bytes-sum,
}
use ami.Demux.Ledger.Lists.{list_held, write_registered, list_bytes-sum}

module _ {T : Type 0} where
  -- What is sound after a `Take`.
  abbrev pub SoundTaken : Taken T → Type 0
  SoundTaken r = IsSound r.0

  item_taken-Safe :
      (m : Machine T) (msg : Option T) → IsSound m → Safe SoundTaken (item_taken m msg)
  item_taken-Safe m msg v = rw (check_lem m v) v

  next_of_sub-Safe :
      (m : Machine T) (id : ℕ) (s : Subscription T)
      → IsSound m
      → lookup id m.sub_by_id ≡ some s
      → Safe SoundTaken (next_of_sub m s)
  unfolding next_of_sub
  next_of_sub-Safe m id s v found =
      Safe-if SoundTaken (ltb 0 (len s.q)) _ _
        (λ some_left.
          let p =
            pop-Popped s.caps s.q (sub_held v.subs id s found).fits
              (ltb→lt 0 (len s.q) some_left) in
          rw p.popped (
            item_taken-Safe _ p.msg (
              write_sub m v (record s { q = p.rest }) s (m.sub_bytes - p.size)
                (sub_here m v id s found) p.fits
                (omega (arith, p.balance, sub_bytes-sum m v id s found))
                (omega (arith, v.subs.room)))))
        λ _. v

  take_sub-Safe :
      (ph : Phase) (m : Machine T) (id : ℕ) (s : Subscription T)
      → IsSound m
      → lookup id m.sub_by_id ≡ some s
      → Safe SoundTaken (take_sub ph m s)
  unfolding take_sub
  take_sub-Safe Phase.dead m id s v found = v
  take_sub-Safe _ m id s v found = next_of_sub-Safe m id s v found

  next_of_follow-Safe :
      (m : Machine T) (id : ℕ) (f : Follow T)
      → IsSound m
      → lookup id m.fol_by_id ≡ some f
      → Safe SoundTaken (next_of_follow m f)
  unfolding next_of_follow
  next_of_follow-Safe m id f v found =
      Safe-if SoundTaken (ltb 0 (len f.q)) _ _
        (λ some_left.
          let p =
            pop-Popped f.caps f.q (follow_held v.subs id f found).fits
              (ltb→lt 0 (len f.q) some_left) in
          rw p.popped (
            item_taken-Safe _ p.msg (
              write_follow m v (record f { q = p.rest }) f (m.sub_bytes - p.size)
                (follow_here m v id f found) p.fits
                (omega (arith, p.balance, follow_bytes-sum m v id f found))
                (omega (arith, v.subs.room)))))
        λ _. v

  take_follow-Safe :
      (ph : Phase) (m : Machine T) (id : ℕ) (f : Follow T)
      → IsSound m
      → lookup id m.fol_by_id ≡ some f
      → Safe SoundTaken (take_follow ph m f)
  unfolding take_follow
  take_follow-Safe Phase.dead m id f v found = v
  take_follow-Safe _ m id f v found = next_of_follow-Safe m id f v found

  list_rest-Safe : (ph : ListPhase) (m : Machine T) → IsSound m → Safe SoundTaken (list_rest ph m)
  unfolding list_rest
  list_rest-Safe ListPhase.draining m v = v
  list_rest-Safe ListPhase.streaming m v = v
  list_rest-Safe _ m v = refl

  next_of_list-Safe :
      (m : Machine T) (id : ℕ) (l : ListBranch T)
      → IsSound m
      → lookup id m.list_by_id ≡ some l
      → Safe SoundTaken (next_of_list m l)
  unfolding next_of_list
  next_of_list-Safe m id l v found =
      let f = list_held m v id l found in
      let at = subst (λ x. lookup x m.list_by_id ≡ some l) (sym f.keyed) found in
      Safe-if SoundTaken (ltb 0 (len l.q)) _ _
        (λ some_left.
          let p = pop-Popped l.caps l.q f.fits (ltb→lt 0 (len l.q) some_left) in
          rw p.popped (
            item_taken-Safe _ p.msg
              (write_registered m v (record l { q = p.rest }) l (m.list_bytes - p.size) m.ret_held
                at p.fits (omega (arith, p.balance, f.light)) f.settled
                (omega (arith, p.balance, list_bytes-sum m v l l at)) refl
                (omega (arith, v.lists.room)) (omega arith)).0))
        λ _. list_rest-Safe l.phase m v

  take_list-Safe :
      (ph : ListPhase) (m : Machine T) (id : ℕ) (l : ListBranch T)
      → IsSound m
      → lookup id m.list_by_id ≡ some l
      → Safe SoundTaken (take_list ph m l)
  unfolding take_list
  take_list-Safe ListPhase.dead m id l v found = v
  take_list-Safe _ m id l v found = next_of_list-Safe m id l v found

  -- From a sound machine, `Take` on any id returns a sound machine, or stops at a violation that is
  -- not one of those that `check` reports.
  pub take_one-Safe : (m : Machine T) (id : ℕ) → IsSound m → Safe SoundTaken (take_one m id)
  unfolding take_one
  take_one-Safe m id v = elim (Option-cases (lookup id m.sub_by_id)) [
    | inr (s, found) ↦ rw (found, take_one) (take_sub-Safe s.phase m id s v found)
    | inl no_sub ↦
        rw (no_sub, take_one)
          (elim (Option-cases (lookup id m.fol_by_id)) [
            | inr (f, found) ↦
                rw (found, take_one)
                  (Safe-if SoundTaken (not f.adopted) _ _ (λ _. refl)
                    λ _. take_follow-Safe f.phase m id f v found)
            | inl no_follow ↦
                rw (no_follow, take_one)
                  (elim (Option-cases (lookup id m.list_by_id)) [
                    | inr (l, found) ↦
                        rw (found, take_one)
                          (Safe-if SoundTaken (not l.adopted) _ _ (λ _. refl)
                            λ _. take_list-Safe l.phase m id l v found)
                    | inl no_list ↦ rw (no_list, take_one) refl
                  ])
          ])
  ]
