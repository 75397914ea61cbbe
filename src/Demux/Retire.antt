-- ===== src/Demux/Retire.antt =====
-- internal/demux/retire.go: the records that quarantine an ActionID, and the slot of a list that
-- turns into one (`finishListSlot` and the list releases of branch.go).
pub mod Deadlines
use ami.Base.{
  ℕ, ◌+◌, ◌-◌, Bool, true, false, not, ◌&&◌, ◌||◌, List, [], ◌∷◌, Option, some, none, ltb, nat_eq,
  if◌then◌else◌, Bytes, string_eq, length, Map, lookup, insert, delete, Outcome, ok, err,
}
use ami.Demux.Types.{Kind, Record, Violation}
use ami.Demux.Machine.{Machine, ListBranch, save_list, detach_list}
use ami.Demux.Queue

abbrev pub response_evidence : Record → Bool → Record
response_evidence r success = record r {
  need_response = false;
  need_mark = if not success then false else r.need_mark;
}

abbrev pub mark_evidence : Record → Record
mark_evidence r = record r { need_mark = false }

-- The loop of `NextDeadline`, with the earliest deadline so far.
unfoldable pub earliest : Option ℕ → Map Bytes Record → Option ℕ
earliest best [] = best
earliest none ((a, r) ∷ rs) = earliest (some r.deadline) rs
earliest (some d) ((a, r) ∷ rs) = earliest (some (if ltb r.deadline d then r.deadline else d)) rs

module _ {T : Type 0} where
  abbrev pub save_record : Machine T → Record → Machine T
  save_record m r = record m { records = insert r.action_id r m.records }

  -- `addRecord`
  unfoldable pub add_record :
      Machine T
      → Bytes
      → Kind
      → Option (List Bytes)
      → Bool
      → Bool
      → Bool
      → Outcome Violation (Machine T)
  add_record m action_id kind completions internal need_response need_mark =
      if not need_response && not need_mark
      then err Violation.record_without_evidence
      else elim (lookup action_id m.records) [
        | some _ ↦ err Violation.duplicate_record
        | none ↦ ok (
            save_record m (record {
              action_id = action_id;
              kind = kind;
              deadline = m.now + m.lim.retirement_lifetime;
              internal = internal;
              need_response = need_response;
              need_mark = need_mark;
              completions = completions;
              absorbed = 0;
            }))
      ]

  -- `maybeDropRecord`, on a record that has been saved.
  unfoldable pub maybe_drop_record : Machine T → Record → Machine T
  maybe_drop_record m r =
      let open_still = r.need_response || r.need_mark in
      record m {
        internal_ret_held = if not open_still && r.internal then false else m.internal_ret_held;
        records = if open_still then m.records else delete r.action_id m.records;
      }

  unfoldable pub next_deadline : Machine T → Option ℕ
  next_deadline m = if m.dead || nat_eq (length m.records) 0 then none else earliest none m.records

-- Go's `<` on strings.
unfoldable pub bytes_lt : Bytes → Bytes → Bool
bytes_lt [] [] = false
bytes_lt [] (y ∷ ys) = true
bytes_lt (x ∷ xs) [] = false
bytes_lt (x ∷ xs) (y ∷ ys) = ltb x y || (nat_eq x y && bytes_lt xs ys)

-- Whether the loop of `Expire` takes `r` in place of the record that it holds.
abbrev pub precedes : Record → Option Record → Bool
precedes r none = true
precedes r (some e) =
    ltb r.deadline e.deadline || (nat_eq r.deadline e.deadline && bytes_lt r.action_id e.action_id)

-- The loop of `Expire`: the expired record with the earliest deadline.
unfoldable pub expired : ℕ → Option Record → Map Bytes Record → Option Record
expired now best [] = best
expired now best ((a, r) ∷ rs) =
    expired now (if ltb now r.deadline then best else if precedes r best then some r else best) rs

module _ {T : Type 0} where
  -- A list with nothing retained.
  abbrev pub cleared : ListBranch T → ListBranch T
  cleared l = record l {
    q = Queue.empty;
    completion_size = 0;
    has_completion = false;
    completion = none;
  }

  -- `discardList`
  unfoldable pub discard_list : Machine T → ListBranch T → Machine T
  discard_list m l =
      save_list (record m { list_bytes = m.list_bytes - l.q.bytes - l.completion_size }) (cleared l)

  -- `dropListEntry`
  unfoldable pub drop_list_entry : Machine T → ListBranch T → Machine T
  drop_list_entry m l =
      let d = discard_list m l in
      detach_list (record d { list_by_action = delete l.action_id d.list_by_action }) (cleared l)

  -- `finishListSlot`
  unfoldable pub finish_list_slot : Machine T → ListBranch T → Outcome Violation (Machine T)
  finish_list_slot m l =
      if not l.ret_held
      then ok m
      else let s =
          save_list (record m { ret_held = m.ret_held - 1 }) (record l { ret_held = false }) in
        if l.response_seen && l.mark_seen
        then ok s
        else add_record s l.action_id Kind.list l.completions false (not l.response_seen)
            (not l.mark_seen)
