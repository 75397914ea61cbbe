-- ===== src/Demux/Ledger/Slots.antt =====
-- The slot of a list, when the list ends or leaves.
use ami.Base.{
  ℕ, ◌+◌, ◌-◌, ◌≤◌, ◌≡◌, refl, sym, subst, true, false, not, ◌&&◌, inl, inr, some, none, arith,
  All-insert, All-delete, Unique, Unique-delete, lookup, insert, delete, total-delete, delete-none,
  lookup-delete_self, lookup-insert_self, insert-insert, number_eq, string_eq, ok, Bool-cases,
}
use ami.Demux.Types.{Kind}
use ami.Demux.Machine.{
  Machine, ListBranch, list_charge, list_hold, save_list, detach_list, one_if, public_records,
}
use ami.Demux.Retire.{finish_list_slot}
use ami.Demux.Ledger.{QueueFits, ListFits, IsSpent, IsSound, Safe, accepts}
use ami.Demux.Ledger.Lists.{
  Points, registered, spent, PointsTo, write_registered, write_spent, IsQuiet-held, list_held,
  list_bytes-sum, held-sum,
}
use ami.Demux.Ledger.Records.{live_of_hold, add_record-Safe}

module _ {T : Type 0} where
  -- A slot is given back, and is free for the record.
  finish_held :
      (m : Machine T) (l : ListBranch T)
      → l.ret_held ≡ true
      → IsSound (save_list (record m { ret_held = m.ret_held - 1 }) (record l { ret_held = false }))
      → m.dead ≡ false
      → m.ret_held - 1 + public_records m + 1 ≤ m.lim.max_retirement
      → Safe IsSound (finish_list_slot m l)
  unfolding finish_list_slot
  finish_held m l h s live room = rw h (elim (Bool-cases (l.response_seen && l.mark_seen)) [
    | inl e ↦ rw e s
    | inr e ↦ rw e (
        add_record-Safe _ s l.action_id Kind.list l.completions false (not l.response_seen)
          (not l.mark_seen) (unfold save_list in live) (unfold save_list in room))
  ])

  -- Two writes to one list.
  save_list-save_list :
      (m : Machine T) (c : ListBranch T) (held : ℕ)
      → save_list (record (save_list m c) { ret_held = held }) (record c { ret_held = false })
        ≡ save_list (record m { ret_held = held }) (record c { ret_held = false })
  unfolding save_list
  save_list-save_list m c held = ground (
    arith,
    insert-insert c.id (record c { ret_held = false }) c m.list_by_id,
    insert-insert c.id (record c { ret_held = false }) c m.detached_lists,
    lookup-insert_self c.id c m.list_by_id,
  )

  finish_free :
      (m : Machine T) (l : ListBranch T) → l.ret_held ≡ false → finish_list_slot m l ≡ ok m
  unfolding finish_list_slot
  finish_free m l h = rw h

  -- A registered list ends: it is written as `d`, and its slot is settled.
  pub settle_registered :
      (m : Machine T) (d old : ListBranch T) (bytes : ℕ)
      → IsSound m
      → lookup d.id m.list_by_id ≡ some old
      → list_hold old ≡ one_if d.ret_held
      → QueueFits d.caps d.q
      → list_charge d ≤ d.caps.bytes
      → accepts d.phase ≡ false
      → bytes + list_charge old ≡ m.list_bytes + list_charge d
      → bytes ≤ m.lim.max_list_bytes
      → Safe IsSound (finish_list_slot (save_list (record m { list_bytes = bytes }) d) d)
  unfolding save_list
  settle_registered m d old bytes v found hold fits light ended eb room =
      elim (Bool-cases d.ret_held) [
        | inl h ↦
            let one : list_hold old ≡ 1 = ground (arith, hold, h) in
            let some_held : 1 ≤ m.ret_held = omega (arith, one, held-sum m v d old found) in
            finish_held _ d h
              (subst IsSound
                (sym (save_list-save_list (record m { list_bytes = bytes }) d (m.ret_held - 1)))
                (write_registered m v (record d { ret_held = false }) old bytes (m.ret_held - 1)
                  found fits light ((λ _. refl), (λ a. absurd (cc))) eb
                  (omega (arith, one, some_held)) room (omega arith)).0)
              (live_of_hold m v some_held) (omega (arith, v.slots.room, some_held))
        | inr h ↦
            subst (Safe IsSound)
              (sym (finish_free (save_list (record m { list_bytes = bytes }) d) d h))
              (write_registered m v d old bytes m.ret_held found fits light
                ((λ _. h), (λ a. absurd (cc))) eb (omega (arith, hold)) room
                (omega (arith, hold))).0
      ]

  -- A list ends and retains nothing more than it did.
  pub settle-Safe :
      (m : Machine T) (l d : ListBranch T) (bytes : ℕ)
      → IsSound m
      → Points m.list_by_id d.id l.caps l.q l.completion_size d.ret_held
      → QueueFits d.caps d.q
      → list_charge d ≤ d.caps.bytes
      → accepts d.phase ≡ false
      → list_charge d ≤ list_charge l
      → (list_charge l ≤ m.list_bytes → bytes + list_charge l ≡ m.list_bytes + list_charge d)
      → Safe IsSound (finish_list_slot (save_list (record m { list_bytes = bytes }) d) d)
  settle-Safe m l d bytes v (registered old found charge hold old_fits old_light) fits light ended
        less eb =
      let in_sum : list_charge l ≤ m.list_bytes =
        omega (arith, charge, list_bytes-sum m v d old found) in
      settle_registered m d old bytes v found hold fits light ended
        (omega (arith, charge, eb in_sum)) (omega (arith, v.lists.room, eb in_sum))
  settle-Safe m l d bytes v (spent gone old_fits zero_charge free) fits light ended less eb =
      subst (Safe IsSound)
        (sym (finish_free (save_list (record m { list_bytes = bytes }) d) d free))
        (write_spent m v d bytes gone fits (omega (arith, less, zero_charge)) free
          (omega (arith, eb (omega (arith, zero_charge)), less, zero_charge))).0

-- A registered list leaves `list_by_id`, and what its pending points to is spent.
module _ {T : Type 0} (m : Machine T) (v : IsSound m) (l old : ListBranch T) (held : ℕ)
    (found : lookup l.id m.list_by_id ≡ some old) (charge : list_charge old ≡ 0)
    (balance : held + list_hold old ≡ m.ret_held) (fits : QueueFits l.caps l.q)
    (empty : list_charge l ≡ 0) (free : l.ret_held ≡ false) where
  left-IsSound : IsSound (record m {
    list_by_id = delete l.id m.list_by_id;
    detached_lists = insert l.id l m.detached_lists;
    ret_held = held;
  })
  left-IsSound = record {
    subs = v.subs;
    lists = record {
      unique = Unique-delete l.id m.list_by_id v.lists.unique;
      lists_fit = All-delete ListFits l.id m.list_by_id v.lists.lists_fit;
      spent =
          All-insert IsSpent l.id l m.detached_lists
            (record { keyed = refl; fits = fits; charge_zero = empty; no_hold = free })
            v.lists.spent;
      balance =
          omega
            (arith, total-delete list_charge l.id old m.list_by_id found, v.lists.balance, charge);
      room = v.lists.room;
    };
    slots = record {
      ticketed = v.slots.ticketed;
      recorded = v.slots.recorded;
      held_sum =
          omega
            (arith, total-delete list_hold l.id old m.list_by_id found, v.slots.held_sum, balance);
      public_sum = v.slots.public_sum;
      room = omega (arith, v.slots.room, balance);
    };
    quiet = λ d. IsQuiet-held held (v.quiet d) (omega (arith, balance));
  }

module _ {T : Type 0} where
  -- The write behind the detachment finds the detached list.
  detach_list-save_list :
      (m : Machine T) (l old : ListBranch T) (held : ℕ)
      → lookup l.id m.list_by_id ≡ some old
      → Unique m.list_by_id
      → save_list (record (detach_list m l) { ret_held = held }) (record l { ret_held = false })
        ≡ record m {
          list_by_id = delete l.id m.list_by_id;
          detached_lists = insert l.id (record l { ret_held = false }) m.detached_lists;
          ret_held = held;
        }
  unfolding save_list detach_list
  detach_list-save_list m l old held found unique = ground (
    arith,
    insert-insert l.id (record l { ret_held = false }) old m.detached_lists,
    lookup-delete_self l.id m.list_by_id unique,
  )

  -- A list that retains nothing and holds no slot leaves `list_by_id`.
  pub detach_free :
      (m : Machine T) (l old : ListBranch T)
      → IsSound m
      → lookup l.id m.list_by_id ≡ some old
      → list_charge old ≡ 0
      → old.ret_held ≡ false
      → IsSound (detach_list m l)
  unfolding detach_list
  detach_free m l old v found charge free =
      let f = list_held m v l.id old found in
      let here = subst (λ k. lookup k m.list_by_id ≡ some old) (sym f.keyed) found in
      rw found (
        subst
          (λ k. IsSound (record m {
            list_by_id = delete k m.list_by_id;
            detached_lists = insert k old m.detached_lists;
          }))
          f.keyed
          (left-IsSound m v old old m.ret_held here charge (ground (arith, free)) f.fits charge
            free))

  pub detach_gone :
      (m : Machine T) (l : ListBranch T)
      → IsSound m
      → lookup l.id m.list_by_id ≡ none
      → IsSound (detach_list m l)
  unfolding detach_list
  detach_gone m l v gone = rw gone (rw (delete-none l.id m.list_by_id gone) v)

  -- `dropListEntry` and `finishListSlot`, behind the discard.
  pub leave-Safe :
      (m : Machine T) (l : ListBranch T)
      → IsSound m
      → PointsTo m l
      → list_charge l ≡ 0
      → Safe IsSound (finish_list_slot (detach_list m l) l)
  unfolding save_list detach_list
  leave-Safe m l v (registered old found charge hold fits light) empty =
      elim (Bool-cases l.ret_held) [
        | inl h ↦
            let one : list_hold old ≡ 1 = ground (arith, hold, h) in
            let some_held : 1 ≤ m.ret_held = omega (arith, one, held-sum m v l old found) in
            finish_held _ l h
              (subst IsSound
                (sym (detach_list-save_list m l old (m.ret_held - 1) found v.lists.unique))
                (left-IsSound m v (record l { ret_held = false }) old (m.ret_held - 1) found
                  (omega (arith, charge, empty)) (omega (arith, one, some_held)) fits empty refl))
              (live_of_hold m v some_held) (omega (arith, v.slots.room, some_held))
        | inr h ↦
            subst (Safe IsSound) (sym (finish_free (detach_list m l) l h))
              (detach_free m l old v found (omega (arith, charge, empty)) (ground (arith, hold, h)))
      ]
  leave-Safe m l v (spent gone fits zero_charge free) empty =
      subst (Safe IsSound) (sym (finish_free (detach_list m l) l free)) (detach_gone m l v gone)
