-- ===== src/Demux/Branch.antt =====
-- internal/demux/branch.go: the consumer's side of the branches. `Subscribe`, `Close`, `Take`,
-- `Terminal` and `ListCompletion`.
use ami.Base.{
  ℕ, ◌+◌, ◌-◌, Bool, false, not, ◌&&◌, ◌||◌, List, [], ◌∷◌, ◌++◌, Option, some, none, ltb, leb,
  nat_eq, if◌then◌else◌, Bytes, string_eq, number_eq, length, lookup, delete, Outcome, ok, err,
  guard, ◌>>=◌, ◌>>◌,
}
use ami.Demux.Types.{
  Reason, Phase, ListPhase, Caps, Error, Violation, TakeState, TakeResult, is_active,
}
use ami.Demux.Machine.{
  Machine, Subscription, Follow, ListBranch, check, checked, save_sub, save_follow, save_list,
  detach_list, advance,
}
use ami.Demux.Names.{fold_set}
use ami.Demux.Queue
use ami.Demux.Queue.{len, pop}
use ami.Demux.Retire.{discard_list, cleared, finish_list_slot}

-- `Caps.valid`
abbrev pub caps_valid : Caps → Bool
caps_valid c = ltb 0 c.items && ltb 0 c.bytes

-- Removes the first occurrence, as the loop of `dropFromOrder` does.
unfoldable pub drop_first : ℕ → List ℕ → List ℕ
drop_first id [] = []
drop_first id (x ∷ xs) = if nat_eq x id then xs else x ∷ drop_first id xs

unfoldable pub holds : ℕ → List ℕ → Bool
holds id [] = false
holds id (x ∷ xs) = nat_eq x id || holds id xs

-- What `Take` returns: the machine, the message (`none` for Go's zero value), and the state.
abbrev pub Taken : Type 0 → Type 0
Taken T = Machine T × Option T × TakeResult

abbrev pub follow_rest : Phase → TakeState
follow_rest Phase.draining = TakeState.eof
follow_rest _ = TakeState.empty

abbrev pub sub_terminal : Phase → Reason → Option Reason
sub_terminal Phase.active r = none
sub_terminal _ r = some r

abbrev pub follow_terminal : Phase → Reason → Option Reason
follow_terminal Phase.active r = none
follow_terminal Phase.draining r = some Reason.none
follow_terminal Phase.dead r = some r

abbrev pub list_terminal : ListPhase → Reason → Option Reason
list_terminal ListPhase.draining r = some Reason.none
list_terminal ListPhase.dead r = some r
list_terminal _ r = none

module _ {T : Type 0} where
  -- The tests of `Subscribe`, and the names to register.
  unfoldable pub subscribable : Machine T → List Bytes → Caps → Outcome Error (Option (List Bytes))
  subscribable m events caps = do
    guard (not m.dead) Error.dead
    guard (caps_valid caps) Error.invalid_options
    names ← fold_set m.lim events
    guard (not (leb m.lim.max_subscriptions (length m.sub_order))) Error.subscription_limit
    ok names

  abbrev pub new_subscription : Machine T → Option (List Bytes) → Caps → Subscription T
  new_subscription m names caps = record {
    id = m.next_branch;
    phase = Phase.active;
    reason = Reason.none;
    names = names;
    caps = caps;
    q = Queue.empty;
  }

  unfoldable pub register : Machine T → Option (List Bytes) → Caps → Machine T
  register m names caps =
      save_sub
        (record m {
          next_branch = m.next_branch + 1;
          sub_order = m.sub_order ++ m.next_branch ∷ [];
        })
        (new_subscription m names caps)

  -- `Subscribe`: a refused call leaves the machine as it was.
  unfoldable pub subscribe :
      Machine T → List Bytes → Caps → Outcome Violation (Machine T × Outcome Error ℕ)
  subscribe m events caps = elim (subscribable m events caps) [
    | err e ↦ ok (m, err e)
    | ok names ↦ checked (λ r. r.0) (register m names caps, ok m.next_branch)
  ]

  -- `dropFromOrder`
  unfoldable pub drop_from_order : Machine T → Subscription T → Outcome Violation (Machine T)
  drop_from_order m s =
      if holds s.id m.sub_order
      then ok (record m { sub_order = drop_first s.id m.sub_order })
      else err Violation.missing_from_order

  unfoldable pub close_sub : Machine T → Subscription T → Outcome Violation (Machine T)
  close_sub m s = do
    d ← if is_active s.phase then drop_from_order m s else ok m
    ok (record d { sub_bytes = d.sub_bytes - s.q.bytes; sub_by_id = delete s.id d.sub_by_id })

  unfoldable pub close_follow_branch : Machine T → Follow T → Outcome Violation (Machine T)
  close_follow_branch m f =
      if not f.adopted
      then err Violation.close_unadopted
      else ok (record m {
        fol_by_action =
            if is_active f.phase then delete f.action_id m.fol_by_action else m.fol_by_action;
        sub_bytes = m.sub_bytes - f.q.bytes;
        fol_by_id = delete f.id m.fol_by_id;
      })

  -- The `lStreaming` case of `Close`.
  unfoldable pub close_streaming : Machine T → ListBranch T → Outcome Violation (Machine T)
  close_streaming m l =
      let dead = record l { phase = ListPhase.dead; reason = Reason.closed } in
      let d =
        discard_list (record m { list_by_action = delete l.action_id m.list_by_action }) dead in
      finish_list_slot d (cleared dead)

  unfoldable pub close_list_phase :
      ListPhase → Machine T → ListBranch T → Outcome Violation (Machine T)
  close_list_phase ListPhase.streaming m l = close_streaming m l
  close_list_phase ListPhase.draining m l = ok (discard_list m l)
  close_list_phase ListPhase.dead m l = ok (discard_list m l)
  close_list_phase _ m l = err Violation.list_pre_response

  unfoldable pub close_list_branch : Machine T → ListBranch T → Outcome Violation (Machine T)
  close_list_branch m l =
      if not l.adopted
      then err Violation.close_unadopted
      else do d ← close_list_phase l.phase m l; ok (detach_list d l)

  unfoldable pub close_branch : Machine T → ℕ → Outcome Violation (Machine T)
  close_branch m id = elim (lookup id m.sub_by_id) [
    | some s ↦ close_sub m s >>= checked (λ r. r)
    | none ↦ elim (lookup id m.fol_by_id) [
      | some f ↦ close_follow_branch m f >>= checked (λ r. r)
      | none ↦ elim (lookup id m.list_by_id) [
        | some l ↦ close_list_branch m l >>= checked (λ r. r)
        | none ↦ ok m
      ]
    ]
  ]

  -- `Close`
  unfoldable pub close : Machine T → ℕ → ℕ → Outcome Violation (Machine T)
  close m id now = close_branch (advance m now) id

  abbrev pub nothing_taken : Machine T → TakeState → Reason → Taken T
  nothing_taken m state reason = (m, none, record { state = state; reason = reason })

  abbrev pub item_taken : Machine T → Option T → Outcome Violation (Taken T)
  item_taken m msg = do
    check m
    ok (m, msg, record { state = TakeState.item; reason = Reason.none })

  -- The oldest entry of a subscription, or that there is none.
  unfoldable pub next_of_sub : Machine T → Subscription T → Outcome Violation (Taken T)
  next_of_sub m s =
      if ltb 0 (len s.q)
      then (do
        (q, msg, size) ← pop s.q
        item_taken (save_sub (record m { sub_bytes = m.sub_bytes - size }) (record s { q = q }))
            msg)
      else ok (nothing_taken m TakeState.empty Reason.none)

  unfoldable pub take_sub : Phase → Machine T → Subscription T → Outcome Violation (Taken T)
  take_sub Phase.dead m s = ok (nothing_taken m TakeState.terminal s.reason)
  take_sub _ m s = next_of_sub m s

  unfoldable pub next_of_follow : Machine T → Follow T → Outcome Violation (Taken T)
  next_of_follow m f =
      if ltb 0 (len f.q)
      then (do
        (q, msg, size) ← pop f.q
        item_taken (save_follow (record m { sub_bytes = m.sub_bytes - size }) (record f { q = q }))
            msg)
      else ok (nothing_taken m (follow_rest f.phase) Reason.none)

  unfoldable pub take_follow : Phase → Machine T → Follow T → Outcome Violation (Taken T)
  take_follow Phase.dead m f = ok (nothing_taken m TakeState.terminal f.reason)
  take_follow _ m f = next_of_follow m f

  unfoldable pub list_rest : ListPhase → Machine T → Outcome Violation (Taken T)
  list_rest ListPhase.draining m = ok (nothing_taken m TakeState.eof Reason.none)
  list_rest ListPhase.streaming m = ok (nothing_taken m TakeState.empty Reason.none)
  list_rest _ m = err Violation.list_pre_response

  unfoldable pub next_of_list : Machine T → ListBranch T → Outcome Violation (Taken T)
  next_of_list m l =
      if ltb 0 (len l.q)
      then (do
        (q, msg, size) ← pop l.q
        item_taken (save_list (record m { list_bytes = m.list_bytes - size }) (record l { q = q }))
            msg)
      else list_rest l.phase m

  unfoldable pub take_list : ListPhase → Machine T → ListBranch T → Outcome Violation (Taken T)
  take_list ListPhase.dead m l = ok (nothing_taken m TakeState.terminal l.reason)
  take_list _ m l = next_of_list m l

  -- `Take`
  unfoldable pub take_one : Machine T → ℕ → Outcome Violation (Taken T)
  take_one m id = elim (lookup id m.sub_by_id) [
    | some s ↦ take_sub s.phase m s
    | none ↦ elim (lookup id m.fol_by_id) [
      | some f ↦ if not f.adopted then err Violation.take_unadopted else take_follow f.phase m f
      | none ↦ elim (lookup id m.list_by_id) [
        | some l ↦ if not l.adopted then err Violation.take_unadopted else take_list l.phase m l
        | none ↦ err Violation.take_unknown
      ]
    ]
  ]

  -- `Terminal`: `none` for a branch with no terminal result yet.
  unfoldable pub terminal : Machine T → ℕ → Option Reason
  terminal m id = elim (lookup id m.sub_by_id) [
    | some s ↦ sub_terminal s.phase s.reason
    | none ↦ elim (lookup id m.fol_by_id) [
      | some f ↦ follow_terminal f.phase f.reason
      | none ↦ elim (lookup id m.list_by_id) [
        | some l ↦ list_terminal l.phase l.reason
        | none ↦ some Reason.closed
      ]
    ]
  ]

  -- `ListCompletion`: the outer option is Go's second result.
  unfoldable pub list_completion : Machine T → ℕ → Option (Option T)
  list_completion m id = elim (lookup id m.list_by_id) [
    | none ↦ none
    | some l ↦ if l.has_completion then some l.completion else none
  ]

  -- `releaseFollowEntry`
  unfoldable pub release_follow_entry : Machine T → Follow T → Machine T
  release_follow_entry m f = record m {
    sub_bytes = m.sub_bytes - f.q.bytes;
    fol_by_action = delete f.action_id m.fol_by_action;
    fol_by_id = delete f.id m.fol_by_id;
  }
