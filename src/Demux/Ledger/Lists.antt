-- ===== src/Demux/Ledger/Lists.antt =====
-- Writes to lists, against the bytes that they retain and the slots that they hold.
use ami.Base.{
  ℕ, ◌+◌, ◌-◌, ◌≤◌, ◌≡◌, refl, sym, subst, Bool, true, false, List, some, none, arith, Bytes, Map,
  All-insert, All-lookup, Unique-insert, lookup, total-insert, total-delete, lookup-insert_self,
  number_eq,
}
use ami.Demux.Types.{Caps, Pending, Record}
use ami.Demux.Machine.{Machine, ListBranch, list_charge, list_hold, save_list, one_if}
use ami.Demux.Queue.{Queue}
use ami.Demux.Retire.{cleared, discard_list}
use ami.Demux.Ledger.{QueueFits, ListFits, IsSpent, IsSound, IsQuiet, IsSettled}
use ami.Demux.Ledger.Subs.{empty-QueueFits}

-- What a pointer to a list finds: a registered list with the charge and the hold of `l`, or one
-- that is spent.
pub data Points {T : Type 0} (lists : Map ℕ (ListBranch T)) (id : ℕ) (caps : Caps) (q : Queue T)
    (size : ℕ) (held : Bool) : Type 0 where
  registered :
      (old : ListBranch T)
      → lookup id lists ≡ some old
      → list_charge old ≡ q.bytes + size
      → list_hold old ≡ one_if held
      → QueueFits caps q
      → q.bytes + size ≤ caps.bytes
      → Points lists id caps q size held
  spent :
      lookup id lists ≡ none
      → QueueFits caps q
      → q.bytes + size ≡ 0
      → held ≡ false
      → Points lists id caps q size held

abbrev pub PointsTo : {T : Type 0} → Machine T → ListBranch T → Type 0
PointsTo m l = Points m.list_by_id l.id l.caps l.q l.completion_size l.ret_held

pub IsQuiet-held :
    {records : Map Bytes Record} {order : List ℕ} {follows lists pendings : Map Bytes ℕ} {held : ℕ}
    {tickets : Map ℕ Pending} (after : ℕ)
    → IsQuiet records order follows lists pendings held tickets
    → after ≤ held
    → IsQuiet records order follows lists pendings after tickets
IsQuiet-held after q h = record {
  no_records = q.no_records;
  no_order = q.no_order;
  no_follows = q.no_follows;
  no_lists = q.no_lists;
  no_pendings = q.no_pendings;
  no_holds = omega (arith, q.no_holds);
  all_completed = q.all_completed;
}

module _ {T : Type 0} (m : Machine T) (v : IsSound m) where
  -- A registered list is written, and the aggregates follow.
  pub write_registered :
      (l old : ListBranch T) (bytes held : ℕ)
      → lookup l.id m.list_by_id ≡ some old
      → QueueFits l.caps l.q
      → list_charge l ≤ l.caps.bytes
      → IsSettled l
      → bytes + list_charge old ≡ m.list_bytes + list_charge l
      → held + list_hold old ≡ m.ret_held + list_hold l
      → bytes ≤ m.lim.max_list_bytes
      → list_hold l ≤ list_hold old
      → let n = save_list (record m { list_bytes = bytes; ret_held = held }) l in
        IsSound n × PointsTo n l
  unfolding save_list
  write_registered l old bytes held found fits light settled eb eh room less = (
    rw found (record {
      subs = v.subs;
      lists = record {
        unique = Unique-insert l.id l m.list_by_id v.lists.unique;
        lists_fit =
            All-insert ListFits l.id l m.list_by_id
              (record { keyed = refl; fits = fits; light = light; settled = settled })
              v.lists.lists_fit;
        spent = v.lists.spent;
        balance =
            omega (arith, total-insert list_charge l.id l old m.list_by_id found, v.lists.balance);
        room = room;
      };
      slots = record {
        ticketed = v.slots.ticketed;
        recorded = v.slots.recorded;
        held_sum =
            omega (arith, total-insert list_hold l.id l old m.list_by_id found, v.slots.held_sum);
        public_sum = v.slots.public_sum;
        room = omega (arith, v.slots.room);
      };
      quiet = λ d. IsQuiet-held held (v.quiet d) (omega arith);
    }),
    rw (found, save_list)
        (registered l (lookup-insert_self l.id l m.list_by_id) refl refl fits light),
  )

  pub write_spent :
      (l : ListBranch T) (bytes : ℕ)
      → lookup l.id m.list_by_id ≡ none
      → QueueFits l.caps l.q
      → list_charge l ≡ 0
      → l.ret_held ≡ false
      → bytes ≡ m.list_bytes
      → let n = save_list (record m { list_bytes = bytes }) l in IsSound n × PointsTo n l
  unfolding save_list
  write_spent l bytes gone fits zero_charge free eb = (
    rw gone (record {
      subs = v.subs;
      lists = record {
        unique = v.lists.unique;
        lists_fit = v.lists.lists_fit;
        spent =
            All-insert IsSpent l.id l m.detached_lists
              (record { keyed = refl; fits = fits; charge_zero = zero_charge; no_hold = free })
              v.lists.spent;
        balance = omega (arith, v.lists.balance);
        room = omega (arith, v.lists.room);
      };
      slots = v.slots;
      quiet = v.quiet;
    }),
    rw (gone, save_list) (spent gone fits zero_charge free),
  )

  -- What is written keeps its charge and its hold.
  pub write_same :
      (l : ListBranch T)
      → PointsTo m l
      → IsSettled l
      → IsSound (save_list m l) × PointsTo (save_list m l) l
  write_same l (registered old found charge hold fits light) settled =
      write_registered l old m.list_bytes m.ret_held found fits light settled
        (omega (arith, charge)) (omega (arith, hold)) v.lists.room (omega (arith, hold))
  write_same l (spent gone fits zero_charge free) settled =
      write_spent l m.list_bytes gone fits zero_charge free refl

  pub list_bytes-sum :
      (l old : ListBranch T) → lookup l.id m.list_by_id ≡ some old → list_charge old ≤ m.list_bytes
  list_bytes-sum l old found =
      omega (arith, total-delete list_charge l.id old m.list_by_id found, v.lists.balance)

  pub held-sum :
      (l old : ListBranch T) → lookup l.id m.list_by_id ≡ some old → list_hold old ≤ m.ret_held
  held-sum l old found =
      omega (arith, total-delete list_hold l.id old m.list_by_id found, v.slots.held_sum)

  pub discard_list-IsSound :
      (l : ListBranch T)
      → PointsTo m l
      → IsSettled l
      → IsSound (discard_list m l) × PointsTo (discard_list m l) (cleared l)
  unfolding discard_list
  discard_list-IsSound l (registered old found charge hold fits light) settled =
      write_registered (cleared l) old (m.list_bytes - l.q.bytes - l.completion_size) m.ret_held
        found (empty-QueueFits l.caps) (omega arith) (settled.0, (λ _. refl))
        (omega (arith, charge, list_bytes-sum l old found)) (omega (arith, hold))
        (omega (arith, v.lists.room)) (omega (arith, hold))
  discard_list-IsSound l (spent gone fits zero_charge free) settled =
      write_spent (cleared l) (m.list_bytes - l.q.bytes - l.completion_size) gone
        (empty-QueueFits l.caps) (omega arith) free (omega (arith, zero_charge))

  -- A slot that is given back.
  pub release_slot :
      (l : ListBranch T)
      → PointsTo m l
      → IsSettled l
      → l.ret_held ≡ true
      → let n =
          save_list (record m { ret_held = m.ret_held - 1 }) (record l { ret_held = false }) in
        IsSound n × PointsTo n (record l { ret_held = false })
  release_slot l (registered old found charge hold fits light) settled h =
      let one : list_hold old ≡ 1 = ground (arith, hold, h) in
      write_registered (record l { ret_held = false }) old m.list_bytes (m.ret_held - 1) found fits
        light ((λ _. refl), settled.1) (omega (arith, charge))
        (omega (arith, one, held-sum l old found)) v.lists.room (omega (arith, one))
  release_slot l (spent gone fits zero_charge free) settled h = absurd (cc)

  pub list_held : (id : ℕ) (l : ListBranch T) → lookup id m.list_by_id ≡ some l → ListFits id l
  list_held id l = All-lookup ListFits id l m.list_by_id v.lists.lists_fit

  pub PointsTo-held : (id : ℕ) (l : ListBranch T) → lookup id m.list_by_id ≡ some l → PointsTo m l
  PointsTo-held id l found =
      let f = list_held id l found in
      registered l (subst (λ x. lookup x m.list_by_id ≡ some l) (sym f.keyed) found) refl refl
        f.fits f.light
