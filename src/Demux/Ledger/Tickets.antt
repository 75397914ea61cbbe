-- ===== src/Demux/Ledger/Tickets.antt =====
-- The writes of a pending, and the operations on a ticket that keep the accounting (pending.go).
use ami.Base.{
  ℕ, ◌≤◌, ◌≡◌, refl, subst, sym, ap, ◌∙◌, Bool, true, false, not, ◌&&◌, inl, inr, some, arith,
  Bytes, Map, lookup, insert, delete, total-insert, total-delete, All-insert, All-delete,
  All-lookup, lookup-insert_self, number_eq, string_eq, Outcome, ok, ◌>>=◌, guard, Bool-cases,
}
use ami.Demux.Types.{Pending, PendingState, Record, Violation, is_completed}
use ami.Demux.Machine.{
  Machine, Follow, ListBranch, save_pending, save_follow, follow_at, pending_hold, pending_public,
  one_if,
}
use ami.Demux.Death.{maybe_release_ticket}
use ami.Demux.Branch.{release_follow_entry}
use ami.Demux.Pending.{is_some, written, ticket, conclude, commit_write, adopt_follow, close_follow}
use ami.Demux.Ledger.{IsSound, IsTicketed, SlotLedger, pending_open}
use ami.Demux.Ledger.Checks.{checked_lem}
use ami.Demux.Ledger.Subs.{drop_follow, follow_held}
use ami.Demux.Ledger.Records.{IsQuiet-unfollow}
use ami.Demux.Ledger.Events.{write_follow, follow_here}

written_completed : (s : PendingState) → is_completed (written s) ≡ is_completed s
written_completed PendingState.reserved = refl
written_completed PendingState.in_flight = refl
written_completed PendingState.completed = refl

written_open :
    (p : Pending)
    → pending_open (record p { committed = true; state = written p.state }) ≤ pending_open p
written_open p = rw (written_completed p.state, pending_open) (omega arith)

holds_follow :
    (p : Pending) (id : ℕ)
    → p.fol ≡ some id
    → p.fol_open ≡ true
    → (is_some p.fol && p.fol_open) ≡ true
holds_follow p id followed held = rw (followed, held)

-- A step of a do block that returns, and a guard that passes.
after_ok :
    {A B : Type 0} (o : Outcome Violation A) (a : A) (f : A → Outcome Violation B)
    (r : Outcome Violation B)
    → o ≡ ok a
    → f a ≡ r
    → (o >>= f) ≡ r
after_ok o a f r returned w = rw returned w

after_guard :
    {B : Type 0} (b : Bool) (e : Violation) (k r : Outcome Violation B)
    → b ≡ true
    → k ≡ r
    → (guard b e >>= (λ _. k)) ≡ r
after_guard true e k r h w = w
after_guard false e k r h w = absurd (cc)

module _ {T : Type 0} {pendings : Map ℕ Pending} {lists : Map ℕ (ListBranch T)}
    {records : Map Bytes Record} {held public limit : ℕ}
    (v : SlotLedger pendings lists records held public limit) where
  -- A pending is written in its own place, with the hold and the count that it had.
  pub write_pending :
      (p old : Pending)
      → lookup p.ticket pendings ≡ some old
      → pending_hold p ≡ pending_hold old
      → pending_public p ≡ pending_public old
      → (is_completed p.state ≡ true → p.ret_held ≡ false)
      → SlotLedger (insert p.ticket p pendings) lists records held public limit
  write_pending p old found hold open_still settled = record {
    ticketed = All-insert IsTicketed p.ticket p pendings (refl, settled) v.ticketed;
    recorded = v.recorded;
    held_sum =
        omega (arith, v.held_sum, total-insert pending_hold p.ticket p old pendings found, hold);
    public_sum = omega (
      arith,
      v.public_sum,
      total-insert pending_public p.ticket p old pendings found,
      open_still,
    );
    room = v.room;
  }

  -- A pending whose outcome is known leaves.
  pub drop_pending :
      (p : Pending)
      → lookup p.ticket pendings ≡ some p
      → is_completed p.state ≡ true
      → SlotLedger (delete p.ticket pendings) lists records held public limit
  drop_pending p found completed =
      let free = (All-lookup IsTicketed p.ticket p pendings v.ticketed found).1 completed in
      let hold : pending_hold p ≡ 0 = ground (arith, free) in
      let counted : pending_public p ≡ 0 = ground (arith, completed) in
      record {
        ticketed = All-delete IsTicketed p.ticket pendings v.ticketed;
        recorded = v.recorded;
        held_sum =
            omega (arith, v.held_sum, total-delete pending_hold p.ticket p pendings found, hold);
        public_sum =
            omega
              (arith, v.public_sum, total-delete pending_public p.ticket p pendings found, counted);
        room = v.room;
      }

module _ {T : Type 0} where
  save_pending-IsSound :
      (m : Machine T) (p old : Pending)
      → IsSound m
      → lookup p.ticket m.pend_by_ticket ≡ some old
      → pending_hold p ≡ pending_hold old
      → pending_public p ≡ pending_public old
      → (is_completed p.state ≡ true → p.ret_held ≡ false)
      → pending_open p ≤ pending_open old
      → IsSound (save_pending m p)
  save_pending-IsSound m p old v found hold open_still settled closing = record {
    subs = v.subs;
    lists = v.lists;
    slots = write_pending v.slots p old found hold open_still settled;
    quiet = λ d.
        let q = v.quiet d in
        record {
          no_records = q.no_records;
          no_order = q.no_order;
          no_follows = q.no_follows;
          no_lists = q.no_lists;
          no_pendings = q.no_pendings;
          no_holds = q.no_holds;
          all_completed = omega (
            arith,
            q.all_completed,
            total-insert pending_open p.ticket p old m.pend_by_ticket found,
            closing,
          );
        };
  }

  release_ticket-IsSound :
      (m : Machine T) (p : Pending)
      → IsSound m
      → lookup p.ticket m.pend_by_ticket ≡ some p
      → IsSound (maybe_release_ticket m p)
  unfolding maybe_release_ticket
  release_ticket-IsSound m p v found =
      elim (Bool-cases (is_completed p.state && p.committed && not p.fol_open && not p.lst_open)) [
        | inr kept ↦ rw kept v
        | inl over ↦ rw over (record {
          subs = v.subs;
          lists = v.lists;
          slots = drop_pending v.slots p found (ground (arith, over));
          quiet = λ d.
              let q = v.quiet d in
              record {
                no_records = q.no_records;
                no_order = q.no_order;
                no_follows = q.no_follows;
                no_lists = q.no_lists;
                no_pendings = q.no_pendings;
                no_holds = q.no_holds;
                all_completed = omega (
                  arith,
                  q.all_completed,
                  total-delete pending_open p.ticket p m.pend_by_ticket found,
                );
              };
        })
      ]

  release_follow-IsSound :
      (m : Machine T) (f : Follow T)
      → IsSound m
      → lookup f.id m.fol_by_id ≡ some f
      → IsSound (release_follow_entry m f)
  unfolding release_follow_entry
  release_follow-IsSound m f v found = record {
    subs = drop_follow v.subs f.id f found;
    lists = v.lists;
    slots = v.slots;
    quiet = λ d. IsQuiet-unfollow (v.quiet d) f.action_id;
  }

  -- The end of an operation on a ticket returns.
  conclude_lem :
      (m : Machine T) (p old : Pending)
      → IsSound m
      → lookup p.ticket m.pend_by_ticket ≡ some old
      → pending_hold p ≡ pending_hold old
      → pending_public p ≡ pending_public old
      → (is_completed p.state ≡ true → p.ret_held ≡ false)
      → pending_open p ≤ pending_open old
      → (n : Machine T) × (conclude m p ≡ ok n) × IsSound n
  unfolding conclude
  conclude_lem m p old v found hold open_still settled closing =
      let w =
        release_ticket-IsSound (save_pending m p) p
          (save_pending-IsSound m p old v found hold open_still settled closing)
          (lookup-insert_self p.ticket p m.pend_by_ticket) in
      (maybe_release_ticket (save_pending m p) p, checked_lem (λ r. r) _ w, w)

  -- The pending of a known ticket.
  pending_here :
      (m : Machine T) (t : ℕ) (p : Pending)
      → IsSound m
      → lookup t m.pend_by_ticket ≡ some p
      → (lookup p.ticket m.pend_by_ticket ≡ some p)
        × (is_completed p.state ≡ true → p.ret_held ≡ false)
  pending_here m t p v found =
      let k = All-lookup IsTicketed t p m.pend_by_ticket v.slots.ticketed found in
      (subst (λ x. lookup x m.pend_by_ticket ≡ some p) (sym k.0) found, k.1)

  -- On a sound machine, `CommitWrite` of a known ticket whose write is not resolved yet returns, and
  -- leaves a sound machine.
  pub commit_write-IsSound :
      (m : Machine T) (t : ℕ) (p : Pending)
      → IsSound m
      → lookup t m.pend_by_ticket ≡ some p
      → p.committed ≡ false
      → (n : Machine T) × (commit_write m t ≡ ok n) × IsSound n
  unfolding commit_write ticket
  commit_write-IsSound m t p v found unresolved =
      let (here, settled) = pending_here m t p v found in
      let same = written_completed p.state in
      let (n, ran, w) =
        conclude_lem m (record p { committed = true; state = written p.state }) p v here refl
          (ap (λ b. one_if (not p.internal && not b)) same) (λ c. settled (sym same ∙ c))
          (written_open p) in
      (
        n,
        after_ok (ticket m t) p _ _ (rw (found, ticket) refl)
            (after_guard _ _ _ _ (ap not unresolved) ran),
        w,
      )

  -- On a sound machine, `AdoptFollow` of a known ticket that holds a follow returns the id of that
  -- follow, and leaves a sound machine.
  pub adopt_follow-IsSound :
      (m : Machine T) (t id : ℕ) (p : Pending) (f : Follow T)
      → IsSound m
      → lookup t m.pend_by_ticket ≡ some p
      → p.fol ≡ some id
      → p.fol_open ≡ true
      → lookup id m.fol_by_id ≡ some f
      → (n : Machine T) × (adopt_follow m t ≡ ok (n, f.id)) × IsSound n
  unfolding adopt_follow ticket
  adopt_follow-IsSound m t id p f v found followed held there =
      let (here, settled) = pending_here m t p v found in
      let fits = (follow_held v.subs id f there).fits in
      let w =
        write_follow m v (record f { adopted = true }) f m.sub_bytes (follow_here m v id f there)
          fits refl v.subs.room in
      let (n, ran, u) =
        conclude_lem (save_follow m (record f { adopted = true })) (record p { fol_open = false }) p
          w here refl refl settled (omega arith) in
      (
        n,
        after_ok (ticket m t) p _ _ (rw (found, ticket) refl) (
            after_guard _ _ _ _ (holds_follow p id followed held) (
              after_ok (follow_at m p.fol) f _ _ (rw followed (rw there refl))
                (after_ok _ n _ _ ran refl))),
        u,
      )

  -- On a sound machine, `CloseFollow` of a known ticket that holds a follow returns, and leaves a
  -- sound machine.
  pub close_follow-IsSound :
      (m : Machine T) (t id : ℕ) (p : Pending) (f : Follow T)
      → IsSound m
      → lookup t m.pend_by_ticket ≡ some p
      → p.fol ≡ some id
      → p.fol_open ≡ true
      → lookup id m.fol_by_id ≡ some f
      → (n : Machine T) × (close_follow m t ≡ ok n) × IsSound n
  unfolding close_follow ticket
  close_follow-IsSound m t id p f v found followed held there =
      let (here, settled) = pending_here m t p v found in
      let (n, ran, u) =
        conclude_lem (release_follow_entry m f) (record p { fol_open = false }) p
          (release_follow-IsSound m f v (follow_here m v id f there))
          (unfold release_follow_entry in here) refl refl settled (omega arith) in
      (
        n,
        after_ok (ticket m t) p _ _ (rw (found, ticket) refl) (
            after_guard _ _ _ _ (holds_follow p id followed held)
              (after_ok (follow_at m p.fol) f _ _ (rw followed (rw there refl)) ran)),
        u,
      )
