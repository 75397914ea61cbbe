-- ===== src/Demux/Ledger/Leaving.antt =====
-- A list that leaves the machine: it gives its slot back and is emptied before its entry goes.
use ami.Base.{
  ℕ, ◌-◌, ◌≡◌, refl, subst, sym, Bool, false, not, ◌&&◌, inl, inr, List, Option, some, Bytes,
  lookup, lookup-insert_self, number_eq, string_eq, Outcome, ok, err, Bool-cases, Option-cases,
}
use ami.Demux.Types.{Violation, Kind}
use ami.Demux.Machine.{Machine, ListBranch, save_list, list_charge, routing_active}
use ami.Demux.Retire.{cleared, discard_list, finish_list_slot, add_record}
use ami.Demux.Ledger.{IsSound, Safe}
use ami.Demux.Ledger.Checks.{Safe-if}
use ami.Demux.Ledger.Lists.{PointsTo-held, list_held, discard_list-IsSound}

module _ {T : Type 0} where
  -- A list that is ready to leave: it retains nothing and holds no slot.
  abbrev pub IsReady : ℕ → Machine T → Type 0
  IsReady id m =
      (old : ListBranch T) × (lookup id m.list_by_id ≡ some old)
      × (list_charge old ≡ 0)
      × (old.ret_held ≡ false)

  pub Safe-both :
      (P Q : Machine T → Type 0) (o : Outcome Violation (Machine T))
      → Safe P o
      → Safe Q o
      → Safe (λ m. P m × Q m) o
  Safe-both P Q (ok m) p q = (p, q)
  Safe-both P Q (err e) p q = p

  pub save_list_found :
      (m : Machine T) (l old : ListBranch T)
      → lookup l.id m.list_by_id ≡ some old
      → lookup l.id (save_list m l).list_by_id ≡ some l
  unfolding save_list
  save_list_found m l old found = rw (found, save_list) (lookup-insert_self l.id l m.list_by_id)

  add_record-IsReady :
      (id : ℕ) (m : Machine T) (a : Bytes) (kind : Kind) (completions : Option (List Bytes))
      (internal need_response need_mark : Bool)
      → IsReady id m
      → Safe (IsReady id) (add_record m a kind completions internal need_response need_mark)
  unfolding add_record
  add_record-IsReady id m a kind completions internal need_response need_mark r =
      Safe-if (IsReady id) (not need_response && not need_mark) _ _ (λ _. refl)
        λ _. elim (Option-cases (lookup a m.records)) [
          | inl fresh ↦ rw fresh r
          | inr (old, taken) ↦ rw taken refl
        ]

  -- The settlement of a slot leaves the list registered.
  pub finish_list_slot-IsReady :
      (m : Machine T) (l : ListBranch T)
      → lookup l.id m.list_by_id ≡ some l
      → list_charge l ≡ 0
      → Safe (IsReady l.id) (finish_list_slot m l)
  unfolding finish_list_slot
  finish_list_slot-IsReady m l found charge = elim (Bool-cases l.ret_held) [
    | inr h ↦ rw h (l, found, charge, h)
    | inl h ↦
        let free = record l { ret_held = false } in
        let n = record m { ret_held = m.ret_held - 1 } in
        let ready : IsReady l.id (save_list n free) =
          (free, save_list_found n free l found, charge, refl) in
        rw h (
          Safe-if (IsReady l.id) (l.response_seen && l.mark_seen) _ _ (λ _. ready)
            λ _.
              add_record-IsReady l.id (save_list n free) l.action_id Kind.list l.completions false
                (not l.response_seen) (not l.mark_seen) ready)
  ]

  pub discard_list-IsReady :
      (m : Machine T) (id : ℕ) (l : ListBranch T)
      → routing_active l.phase ≡ false
      → IsSound m
      → lookup id m.list_by_id ≡ some l
      → IsSound (discard_list m l) × IsReady l.id (discard_list m l)
  unfolding discard_list
  discard_list-IsReady m id l ended v found =
      let f = list_held m v id l found in
      let at = subst (λ x. lookup x m.list_by_id ≡ some l) (sym f.keyed) found in
      (
        (discard_list-IsSound m v l (PointsTo-held m v id l found) f.settled).0,
        (
          cleared l,
          save_list_found (record m { list_bytes = m.list_bytes - l.q.bytes - l.completion_size })
              (cleared l) l at,
          refl,
          f.settled.0 ended,
        ),
      )
