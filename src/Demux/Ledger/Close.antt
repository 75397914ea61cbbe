-- ===== src/Demux/Ledger/Close.antt =====
-- `Close` keeps the accounting.
use ami.Base.{
  ℕ, ◌-◌, ◌≡◌, refl, subst, sym, Bool, true, false, not, inl, inr, List, [], ◌∷◌, some, arith,
  lookup, delete, number_eq, string_eq, if◌then◌else◌, Outcome, ok, ◌>>=◌, Option-cases,
}
use ami.Demux.Types.{Reason, ListPhase, Violation, is_active}
use ami.Demux.Machine.{Machine, Subscription, Follow, ListBranch, checked, advance}
use ami.Demux.Retire.{cleared, discard_list}
use ami.Demux.Branch.{
  holds, drop_first, drop_from_order, close_sub, close_follow_branch, close_streaming,
  close_list_phase, close_list_branch, close, close_branch,
}
use ami.Demux.Ledger.{IsSound, IsQuiet, Quiet, Safe}
use ami.Demux.Ledger.Checks.{Safe-bind, Safe-if, checked-Safe}
use ami.Demux.Ledger.Subs.{drop_sub, drop_follow, empty-QueueFits}
use ami.Demux.Ledger.Events.{sub_here, follow_here}
use ami.Demux.Ledger.Lists.{PointsTo-held, list_held}
use ami.Demux.Ledger.Records.{unlist-IsSound, IsQuiet-unfollow}
use ami.Demux.Ledger.Slots.{settle-Safe, detach_free}
use ami.Demux.Ledger.Leaving.{
  IsReady, Safe-both, save_list_found, finish_list_slot-IsReady, discard_list-IsReady,
}

drop_first-nil : (id : ℕ) (ids : List ℕ) → ids ≡ [] → drop_first id ids ≡ []
unfolding drop_first
drop_first-nil id [] e = refl
drop_first-nil id (x ∷ ids) e = absurd (cc)

module _ {T : Type 0} where
  close_sub-Safe :
      (m : Machine T) (id : ℕ) (s : Subscription T)
      → IsSound m
      → lookup id m.sub_by_id ≡ some s
      → Safe IsSound (close_sub m s)
  unfolding close_sub drop_from_order
  close_sub-Safe m id s v found =
      Safe-bind (λ d. IsSound d × (lookup s.id d.sub_by_id ≡ some s)) IsSound
        (if is_active s.phase then drop_from_order m s else ok m) _
        (Safe-if (λ d. IsSound d × (lookup s.id d.sub_by_id ≡ some s)) (is_active s.phase) _ _
          (λ _.
            Safe-if (λ d. IsSound d × (lookup s.id d.sub_by_id ≡ some s)) (holds s.id m.sub_order) _
              _
              (λ _. (
                record {
                  subs = v.subs;
                  lists = v.lists;
                  slots = v.slots;
                  quiet = λ d.
                      let q = v.quiet d in
                      record {
                        no_records = q.no_records;
                        no_order = drop_first-nil s.id m.sub_order q.no_order;
                        no_follows = q.no_follows;
                        no_lists = q.no_lists;
                        no_pendings = q.no_pendings;
                        no_holds = q.no_holds;
                        all_completed = q.all_completed;
                      };
                },
                sub_here m v id s found,
              ))
              λ _. refl)
          λ _. (v, sub_here m v id s found))
        λ d e w. record {
          subs = drop_sub w.0.subs s.id s w.1;
          lists = w.0.lists;
          slots = w.0.slots;
          quiet = w.0.quiet;
        }

  close_follow_branch-Safe :
      (m : Machine T) (id : ℕ) (f : Follow T)
      → IsSound m
      → lookup id m.fol_by_id ≡ some f
      → Safe IsSound (close_follow_branch m f)
  unfolding close_follow_branch
  close_follow_branch-Safe m id f v found =
      Safe-if IsSound (not f.adopted) _ _ (λ _. refl)
        λ _. record {
          subs = drop_follow v.subs f.id f (follow_here m v id f found);
          lists = v.lists;
          slots = v.slots;
          quiet = λ d. unrouted (is_active f.phase) (v.quiet d);
        }
    where
      unrouted :
          (b : Bool)
          → Quiet m
          → IsQuiet m.records m.sub_order
              (if b then delete f.action_id m.fol_by_action else m.fol_by_action)
              m.list_by_action
              m.pend_by_action
              m.ret_held
              m.pend_by_ticket
      unrouted true q = IsQuiet-unfollow q f.action_id
      unrouted false q = q

  close_streaming-Safe :
      (m : Machine T) (id : ℕ) (l : ListBranch T)
      → IsSound m
      → lookup id m.list_by_id ≡ some l
      → Safe (λ d. IsSound d × IsReady l.id d) (close_streaming m l)
  unfolding close_streaming discard_list
  close_streaming-Safe m id l v found =
      Safe-both IsSound (IsReady l.id) _
        (settle-Safe (record m { list_by_action = delete l.action_id m.list_by_action }) l
          (cleared (record l { phase = ListPhase.dead; reason = Reason.closed }))
          (m.list_bytes - l.q.bytes - l.completion_size) (unlist-IsSound m v l.action_id)
          (PointsTo-held m v id l found) (empty-QueueFits l.caps) (omega arith) refl (omega arith)
          (λ h. omega arith))
        (finish_list_slot-IsReady _
          (cleared (record l { phase = ListPhase.dead; reason = Reason.closed }))
          (save_list_found _ (cleared (record l { phase = ListPhase.dead; reason = Reason.closed }))
            l
            (subst (λ x. lookup x m.list_by_id ≡ some l) (sym (list_held m v id l found).keyed)
              found))
          refl)

  close_list_phase-Safe :
      (ph : ListPhase) (m : Machine T) (id : ℕ) (l : ListBranch T)
      → l.phase ≡ ph
      → IsSound m
      → lookup id m.list_by_id ≡ some l
      → Safe (λ d. IsSound d × IsReady l.id d) (close_list_phase ph m l)
  unfolding close_list_phase
  close_list_phase-Safe ListPhase.streaming m id l e v found = close_streaming-Safe m id l v found
  close_list_phase-Safe ListPhase.draining m id l e v found =
      discard_list-IsReady m id l (rw e) v found
  close_list_phase-Safe ListPhase.dead m id l e v found = discard_list-IsReady m id l (rw e) v found
  close_list_phase-Safe _ m id l e v found = refl

  close_list_branch-Safe :
      (m : Machine T) (id : ℕ) (l : ListBranch T)
      → IsSound m
      → lookup id m.list_by_id ≡ some l
      → Safe IsSound (close_list_branch m l)
  unfolding close_list_branch
  close_list_branch-Safe m id l v found =
      Safe-if IsSound (not l.adopted) _ _ (λ _. refl)
        λ _.
          Safe-bind (λ d. IsSound d × IsReady l.id d) IsSound _ _
            (close_list_phase-Safe l.phase m id l refl v found)
            λ d e (w, ready). detach_free d l ready.0 w ready.1 ready.2 ready.3

  -- The clock is no part of the accounting.
  pub advance-IsSound : (m : Machine T) (now : ℕ) → IsSound m → IsSound (advance m now)
  advance-IsSound m now v = record {
    subs = v.subs;
    lists = v.lists;
    slots = v.slots;
    quiet = v.quiet;
  }

  checked_after :
      (o : Outcome Violation (Machine T)) → Safe IsSound o → Safe IsSound (o >>= checked (λ m. m))
  checked_after o s = Safe-bind IsSound IsSound o _ s λ m e v. checked-Safe (λ n. n) m v

  close_branch-Safe : (m : Machine T) (id : ℕ) → IsSound m → Safe IsSound (close_branch m id)
  unfolding close_branch
  close_branch-Safe m id v = elim (Option-cases (lookup id m.sub_by_id)) [
    | inr (s, found) ↦ rw (found, close_branch) (checked_after _ (close_sub-Safe m id s v found))
    | inl no_sub ↦
        rw (no_sub, close_branch)
          (elim (Option-cases (lookup id m.fol_by_id)) [
            | inr (f, found) ↦
                rw (found, close_branch) (checked_after _ (close_follow_branch-Safe m id f v found))
            | inl no_follow ↦
                rw (no_follow, close_branch)
                  (elim (Option-cases (lookup id m.list_by_id)) [
                    | inr (l, found) ↦
                        rw (found, close_branch)
                          (checked_after _ (close_list_branch-Safe m id l v found))
                    | inl no_list ↦ rw (no_list, close_branch) v
                  ])
          ])
  ]

  -- From a sound machine, `Close` of any id at any time, its final `check` included, returns a sound
  -- machine, or stops at a violation that is not one of those that `check` reports.
  pub close-Safe : (m : Machine T) (id now : ℕ) → IsSound m → Safe IsSound (close m id now)
  unfolding close
  close-Safe m id now v = close_branch-Safe (advance m now) id (advance-IsSound m now v)
