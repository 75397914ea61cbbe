-- ===== src/Demux/Ledger/Records.antt =====
-- The retirement records and the routing indexes: their additions and their removals.
use ami.Base.{
  ℕ, ◌+◌, ◌≤◌, ◌≡◌, refl, Bool, false, not, ◌&&◌, ◌||◌, inl, inr, List, Option, some, arith, Bytes,
  Map, All-insert, All-delete, lookup, delete, total-insert, total-insert_new, total-delete-le,
  delete-nil, lookup-nil, number_eq, string_eq, Bool-cases, Option-cases,
}
use ami.Demux.Types.{Kind, Pending, Record}
use ami.Demux.Machine.{Machine, one_if, record_public, public_records}
use ami.Demux.Retire.{add_record, save_record, maybe_drop_record}
use ami.Demux.Ledger.{IsSound, IsQuiet, IsRecorded, Safe}

module _ {records : Map Bytes Record} {order : List ℕ} {follows lists pendings : Map Bytes ℕ}
    {held : ℕ} {tickets : Map ℕ Pending}
    (q : IsQuiet records order follows lists pendings held tickets) where
  pub IsQuiet-unrecord :
      (a : Bytes) → IsQuiet (delete a records) order follows lists pendings held tickets
  IsQuiet-unrecord a = record {
    no_records = rw (q.no_records, delete-nil);
    no_order = q.no_order;
    no_follows = q.no_follows;
    no_lists = q.no_lists;
    no_pendings = q.no_pendings;
    no_holds = q.no_holds;
    all_completed = q.all_completed;
  }

  pub IsQuiet-unfollow :
      (a : Bytes) → IsQuiet records order (delete a follows) lists pendings held tickets
  IsQuiet-unfollow a = record {
    no_records = q.no_records;
    no_order = q.no_order;
    no_follows = rw (q.no_follows, delete-nil);
    no_lists = q.no_lists;
    no_pendings = q.no_pendings;
    no_holds = q.no_holds;
    all_completed = q.all_completed;
  }

  pub IsQuiet-unlist :
      (a : Bytes) → IsQuiet records order follows (delete a lists) pendings held tickets
  IsQuiet-unlist a = record {
    no_records = q.no_records;
    no_order = q.no_order;
    no_follows = q.no_follows;
    no_lists = rw (q.no_lists, delete-nil);
    no_pendings = q.no_pendings;
    no_holds = q.no_holds;
    all_completed = q.all_completed;
  }

  pub IsQuiet-unpend :
      (a : Bytes) → IsQuiet records order follows lists (delete a pendings) held tickets
  IsQuiet-unpend a = record {
    no_records = q.no_records;
    no_order = q.no_order;
    no_follows = q.no_follows;
    no_lists = q.no_lists;
    no_pendings = rw (q.no_pendings, delete-nil);
    no_holds = q.no_holds;
    all_completed = q.all_completed;
  }

module _ {T : Type 0} (m : Machine T) (v : IsSound m) where
  pub live_of_hold : 1 ≤ m.ret_held → m.dead ≡ false
  live_of_hold h = elim (Bool-cases m.dead) [
    | inl d ↦ absurd (omega (arith, (v.quiet d).no_holds))
    | inr a ↦ a
  ]

  pub unlist-IsSound :
      (a : Bytes) → IsSound (record m { list_by_action = delete a m.list_by_action })
  unlist-IsSound a = record {
    subs = v.subs;
    lists = v.lists;
    slots = v.slots;
    quiet = λ d. IsQuiet-unlist (v.quiet d) a;
  }

  pub unfollow-IsSound :
      (a : Bytes) → IsSound (record m { fol_by_action = delete a m.fol_by_action })
  unfollow-IsSound a = record {
    subs = v.subs;
    lists = v.lists;
    slots = v.slots;
    quiet = λ d. IsQuiet-unfollow (v.quiet d) a;
  }

  -- A record in a free slot of a live machine.
  pub add_record-Safe :
      (a : Bytes) (kind : Kind) (completions : Option (List Bytes))
      (internal need_response need_mark : Bool)
      → m.dead ≡ false
      → m.ret_held + public_records m + one_if (not internal) ≤ m.lim.max_retirement
      → Safe IsSound (add_record m a kind completions internal need_response need_mark)
  unfolding add_record
  add_record-Safe a kind completions internal need_response need_mark live room =
      elim (Bool-cases (not need_response && not need_mark)) [
        | inl e ↦ rw e refl
        | inr e ↦ rw e (elim (Option-cases (lookup a m.records)) [
          | inl fresh ↦
              rw (fresh, add_record)
                (record {
                  subs = v.subs;
                  lists = v.lists;
                  slots = record {
                    ticketed = v.slots.ticketed;
                    recorded = All-insert IsRecorded a _ m.records refl v.slots.recorded;
                    held_sum = v.slots.held_sum;
                    public_sum = v.slots.public_sum;
                    room = omega (arith, total-insert_new record_public a _ m.records fresh);
                  };
                  quiet = λ d. absurd (cc);
                })
          | inr (r, taken) ↦ rw (taken, add_record) refl
        ])
      ]

  pub drop_record-IsSound : (r : Record) → IsSound (maybe_drop_record m r)
  unfolding maybe_drop_record
  drop_record-IsSound r = elim (Bool-cases (r.need_response || r.need_mark)) [
    | inl e ↦ rw e v
    | inr e ↦ rw e (record {
      subs = v.subs;
      lists = v.lists;
      slots = record {
        ticketed = v.slots.ticketed;
        recorded = All-delete IsRecorded r.action_id m.records v.slots.recorded;
        held_sum = v.slots.held_sum;
        public_sum = v.slots.public_sum;
        room = omega (arith, v.slots.room, total-delete-le record_public r.action_id m.records);
      };
      quiet = λ d.
          let q = v.quiet d in
          record {
            no_records = rw (q.no_records, delete-nil);
            no_order = q.no_order;
            no_follows = q.no_follows;
            no_lists = q.no_lists;
            no_pendings = q.no_pendings;
            no_holds = q.no_holds;
            all_completed = q.all_completed;
          };
    })
  ]

  -- A live record that is written again, for the same family.
  pub save_record-IsSound :
      (r old : Record)
      → lookup r.action_id m.records ≡ some old
      → r.internal ≡ old.internal
      → IsSound (save_record m r)
  save_record-IsSound r old found same = record {
    subs = v.subs;
    lists = v.lists;
    slots = record {
      ticketed = v.slots.ticketed;
      recorded = All-insert IsRecorded r.action_id r m.records refl v.slots.recorded;
      held_sum = v.slots.held_sum;
      public_sum = v.slots.public_sum;
      room =
          ground
            (arith, total-insert record_public r.action_id r old m.records found, v.slots.room);
    };
    quiet = λ d. absurd (cc (found, (v.quiet d).no_records, lookup-nil {V = Record} r.action_id));
  }
