-- ===== src/Demux/Ledger/Admission.antt =====
-- `Admit` keeps the accounting.
use ami.Base.{
  ℕ, ◌+◌, ◌≤◌, ◌<◌, ◌≡◌, refl, Bool, true, false, not, ◌&&◌, ◌||◌, ◌⊎◌, inl, inr, Option, some,
  none, arith, Bytes, Map, lookup, insert, total, total-insert_new, All-insert, Unique-insert,
  number_eq, string_eq, if◌then◌else◌, ok, err, Option-cases, Outcome-cases,
}
use ami.Demux.Types.{is_completed, Kind, Pending, AdmitOptions, ListOptions, Error, Record}
use ami.Demux.Machine.{
  Machine, ListBranch, pending_hold, pending_public, record_public, list_hold, list_charge, one_if,
  public_records,
}
use ami.Demux.Pending.{
  is_some, is_list, is_request, Names, well_formed, has_room, admissible, is_known, reserve,
  new_pending, new_follow, new_list, register_branch, enter, admit,
}
use ami.Demux.Ledger.{IsSound, IsTicketed, SlotLedger, ListLedger, ListFits}
use ami.Demux.Ledger.Checks.{checked_lem}
use ami.Demux.Ledger.Subs.{add_follow, empty-QueueFits}

list_not_request : (kind : Kind) → is_list kind ≡ true → is_request kind ≡ false
list_not_request Kind.list h = refl
list_not_request Kind.request h = absurd (cc)
list_not_request Kind.unset h = refl

-- The hold that `reserve` counts is that of the pending.
reserved_held :
    (b k : Bool) (held : ℕ)
    → (if not b && k then held + 1 else held) ≡ held + one_if ((b || k) && not b)
reserved_held true true held = omega arith
reserved_held true false held = omega arith
reserved_held false true held = omega arith
reserved_held false false held = omega arith

reserved_public :
    (b : Bool) (public : ℕ)
    → (if b then public else public + 1) ≡ public + one_if (not b && not false)
reserved_public true public = omega arith
reserved_public false public = omega arith

list_room :
    (b k : Bool) (held records limit : ℕ)
    → k ≡ false
    → held + records < limit
    → (if not b && k then held + 1 else held) + 1 + records ≤ limit
list_room b k held records limit e h = ground arith

module _ {T : Type 0} {pendings : Map ℕ Pending} {lists : Map ℕ (ListBranch T)}
    {records : Map Bytes Record} {held public limit : ℕ}
    (v : SlotLedger pendings lists records held public limit) where
  add_pending :
      (p : Pending)
      → lookup p.ticket pendings ≡ none
      → (is_completed p.state ≡ true → p.ret_held ≡ false)
      → held + pending_hold p + total record_public records ≤ limit
      → SlotLedger
          (insert p.ticket p pendings)
          lists
          records
          (held + pending_hold p)
          (public + pending_public p)
          limit
  add_pending p fresh settled room = record {
    ticketed = All-insert IsTicketed p.ticket p pendings (refl, settled) v.ticketed;
    recorded = v.recorded;
    held_sum = omega (arith, v.held_sum, total-insert_new pending_hold p.ticket p pendings fresh);
    public_sum =
        omega (arith, v.public_sum, total-insert_new pending_public p.ticket p pendings fresh);
    room = room;
  }

  add_list_hold :
      (l : ListBranch T)
      → lookup l.id lists ≡ none
      → held + list_hold l + total record_public records ≤ limit
      → SlotLedger pendings (insert l.id l lists) records (held + list_hold l) public limit
  add_list_hold l fresh room = record {
    ticketed = v.ticketed;
    recorded = v.recorded;
    held_sum = omega (arith, v.held_sum, total-insert_new list_hold l.id l lists fresh);
    public_sum = v.public_sum;
    room = room;
  }

module _ {T : Type 0} where
  add_list :
      {lists detached : Map ℕ (ListBranch T)} {bytes limit : ℕ}
      (v : ListLedger lists detached bytes limit) (l : ListBranch T)
      → lookup l.id lists ≡ none
      → ListFits l.id l
      → list_charge l ≡ 0
      → ListLedger (insert l.id l lists) detached bytes limit
  add_list v l fresh fits light = record {
    unique = Unique-insert l.id l _ v.unique;
    lists_fit = All-insert ListFits l.id l _ fits v.lists_fit;
    spent = v.spent;
    balance = omega (arith, v.balance, total-insert_new list_charge l.id l _ fresh, light);
    room = v.room;
  }

  -- What `Admit` has tested when it registers an action.
  record IsAdmissible (m : Machine T) (kind : Kind) (o : AdmitOptions T) : Type 0 where
    live : m.dead ≡ false
    room : o.internal ≡ false → m.ret_held + public_records m < m.lim.max_retirement
    listed : is_some o.listing ≡ true → (is_request kind ≡ false) × (o.internal ≡ false)

  admissible-IsAdmissible :
      (m : Machine T) (a : Bytes) (kind : Kind) (o : AdmitOptions T) (names : Names)
      → admissible m a kind o ≡ ok names
      → IsAdmissible m kind o
  unfolding admissible well_formed has_room
  admissible-IsAdmissible m a kind o names h = record {
    live = ground arith;
    room = λ b. ground arith;
    listed = λ b. (list_not_request kind (ground arith), ground arith);
  }

  hold_room :
      (m : Machine T) (v : IsSound m) (b k : Bool)
      → (b ≡ false → m.ret_held + public_records m < m.lim.max_retirement)
      → m.ret_held + one_if ((b || k) && not b) + public_records m ≤ m.lim.max_retirement
  hold_room m v true k h = omega (arith, v.slots.room)
  hold_room m v false true h = omega (arith, h refl)
  hold_room m v false false h = omega (arith, h refl)

  new_list_fits :
      (m : Machine T) (a : Bytes) (names : Names) (l : ListOptions T)
      → ListFits m.next_branch (new_list m a names l)
  unfolding new_list
  new_list_fits m a names l = record {
    keyed = refl;
    fits = empty-QueueFits l.caps;
    light = omega arith;
    settled = ((λ h. absurd (cc)), λ h. refl);
  }

  enter-IsSound :
      (m : Machine T) (a : Bytes) (kind : Kind) (o : AdmitOptions T) (names : Names)
      → IsSound m
      → lookup m.next_ticket m.pend_by_ticket ≡ none
      → lookup m.next_branch m.fol_by_id ≡ none
      → lookup m.next_branch m.list_by_id ≡ none
      → IsAdmissible m kind o
      → IsSound (enter m a kind o names)
  unfolding enter reserve register_branch new_follow new_list
  enter-IsSound m a kind o names v ticket_free follow_free list_free w =
      elim (Option-cases o.follow) [
        | inr (f, followed) ↦
            rw (followed, enter)
              (record {
                subs =
                    add_follow v.subs (new_follow m a names f) follow_free (empty-QueueFits f.caps)
                      refl;
                lists = v.lists;
                slots = slots (some m.next_branch) true none false;
                quiet = λ d. absurd (cc (w.live, d));
              })
        | inl alone ↦ elim (Option-cases o.listing) [
          | inr (l, listed) ↦
              let (request, public) = w.listed (rw listed refl) in
              rw (alone, listed, enter)
                (record {
                  subs = v.subs;
                  lists =
                      add_list v.lists (new_list m a names l) list_free (new_list_fits m a names l)
                        refl;
                  slots =
                      add_list_hold (slots none false (some m.next_branch) true)
                        (new_list m a names l) list_free
                        (list_room (o.internal) (is_request kind) m.ret_held (public_records m)
                          m.lim.max_retirement request (w.room public));
                  quiet = λ d. absurd (cc (w.live, d));
                })
          | inl plain ↦
              rw (alone, plain, enter)
                (record {
                  subs = v.subs;
                  lists = v.lists;
                  slots = slots none false none false;
                  quiet = λ d. absurd (cc (w.live, d));
                })
        ]
      ]
    where
      slots :
          (fol : Option ℕ) (fol_open : Bool) (lst : Option ℕ) (lst_open : Bool)
          → SlotLedger
              (insert m.next_ticket
                (record (new_pending m a kind o.internal) {
                  fol = fol;
                  fol_open = fol_open;
                  lst = lst;
                  lst_open = lst_open;
                })
                m.pend_by_ticket)
              m.list_by_id
              m.records
              (if not o.internal && is_request kind then m.ret_held + 1 else m.ret_held)
              (if o.internal then m.public_pending else m.public_pending + 1)
              m.lim.max_retirement
      slots fol fol_open lst lst_open =
          rw
            (
              reserved_held o.internal (is_request kind) m.ret_held,
              reserved_public o.internal m.public_pending,
            )
            (add_pending v.slots
              (record (new_pending m a kind o.internal) {
                fol = fol;
                fol_open = fol_open;
                lst = lst;
                lst_open = lst_open;
              })
              ticket_free (λ c. absurd (cc)) (hold_room m v o.internal (is_request kind) w.room))

  -- On a sound machine whose next ticket is not in use, and whose next branch id no follow and no
  -- list has, `Admit` of an ActionID that none of the four maps knows always returns: either the
  -- error of its tests and the machine as it was, or the next ticket and the machine with the action
  -- registered, which is sound.
  pub admit-IsSound :
      (m : Machine T) (a : Bytes) (kind : Kind) (o : AdmitOptions T)
      → IsSound m
      → lookup m.next_ticket m.pend_by_ticket ≡ none
      → lookup m.next_branch m.fol_by_id ≡ none
      → lookup m.next_branch m.list_by_id ≡ none
      → is_known m a ≡ false
      → ((e : Error) × (admissible m a kind o ≡ err e) × (admit m a kind o ≡ ok (m, err e)))
        ⊎ ((names : Names) × (admissible m a kind o ≡ ok names)
            × (admit m a kind o ≡ ok (enter m a kind o names, ok m.next_ticket))
            × IsSound (enter m a kind o names))
  unfolding admit
  admit-IsSound m a kind o v ticket_free follow_free list_free unknown =
      elim (Outcome-cases (admissible m a kind o)) [
        | inr (e, refused) ↦ inl (e, refused, rw (refused, admit) refl)
        | inl (names, open_now) ↦
            let w =
              enter-IsSound m a kind o names v ticket_free follow_free list_free
                (admissible-IsAdmissible m a kind o names open_now) in
            inr (names, open_now, rw (open_now, unknown, admit) (checked_lem (λ r. r.0) _ w), w)
      ]
