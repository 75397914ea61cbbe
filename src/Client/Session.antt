-- ===== src/Client/Session.antt =====
-- client.go: what the session does under its lock with the effects of the machine, and `die`.
pub mod Release
pub mod Termination
pub mod Sending
use ami.Base.{
  ℕ, ◌+◌, Bool, true, false, not, ◌&&◌, List, [], ◌∷◌, ◌++◌, Option, some, none, nat_eq,
  if◌then◌else◌, Outcome, ok, err,
}
use ami.Demux.Types.{Kind, Reason, Envelope, Completion, Fatality, Effects, Violation}
use ami.Demux.Machine.{Machine, no_effects}
use ami.Demux.Death.{kill, expire}
use ami.Demux.Route.{route}
use ami.Demux.Branch.{terminal}

pub data ListFailure : Type 0 where
  cancelled overflowed count_mismatch count_malformed : ListFailure

-- The errors that a session commits. `external` is a cause that comes from elsewhere, and `panicked`
-- is a panic of the read loop.
pub data Failure (E : Type 0) : Type 0 where
  closed lagged classification panicked : Failure E
  listing : ListFailure → Failure E
  retirement : Kind → Failure E
  correlation : Reason → Failure E
  external : E → Failure E

-- Go's `branchState`. `closes` counts the calls of `close(b.done)`, of which a second one panics.
pub record BranchState (E : Type 0) : Type 0 where
  pub notified : Bool
  pub terminal : Bool
  pub error : Option (Failure E)
  pub closes : ℕ

-- The part of `Client` that its lock guards. A map from tickets or branches is a function. `channels`
-- is what was sent on the channel of a ticket, also when the ticket waits no more; a channel has
-- room for one completion. `machine` is `none` behind a panic in the middle of a mutation.
pub record Session (E T : Type 0) : Type 0 where
  pub machine : Option (Machine T)
  pub waiting : ℕ → Bool
  pub channels : ℕ → List (Completion T)
  pub branches : ℕ → Option (BranchState E)
  pub terminated : Bool
  pub cause : Option (Failure E)

-- What a machine that a panic has wrecked answers: anything.
pub record Wreck (T : Type 0) : Type 0 where
  pub effects : Effects T
  pub terminal_of : ℕ → Option Reason

abbrev pub undelivered : {T : Type 0} → ℕ → Completion T
undelivered t = record { ticket = t; response = none; delivered = false }

module _ {E : Type 0} where
  -- `causeLocked`
  abbrev pub cause_or_closed : Option (Failure E) → Failure E
  cause_or_closed none = Failure.closed
  cause_or_closed (some e) = e

  -- `errForReasonLocked`
  unfoldable pub err_for_reason : Option (Failure E) → Reason → Option (Failure E)
  err_for_reason cause Reason.none = none
  err_for_reason cause Reason.lagged = some Failure.lagged
  err_for_reason cause Reason.closed = some Failure.closed
  err_for_reason cause Reason.client_dead = some (cause_or_closed cause)
  err_for_reason cause Reason.overflow = some (Failure.listing ListFailure.overflowed)
  err_for_reason cause Reason.cancelled = some (Failure.listing ListFailure.cancelled)
  err_for_reason cause Reason.count_mismatch = some (Failure.listing ListFailure.count_mismatch)
  err_for_reason cause Reason.count_malformed = some (Failure.listing ListFailure.count_malformed)
  err_for_reason cause r = some Failure.closed

  -- `fatalError`
  unfoldable pub fatal_error : Fatality → Failure E
  fatal_error f = elim f.reason [
    | Reason.retirement_expired ↦ Failure.retirement f.kind
    | Reason.envelope_invalid ↦ Failure.classification
    | Reason.response_no_id ↦ Failure.correlation Reason.response_no_id
    | Reason.response_foreign ↦ Failure.correlation Reason.response_foreign
    | Reason.response_unmatched ↦ Failure.correlation Reason.response_unmatched
    | r ↦ Failure.closed
  ]

  -- `commitTerminalLocked`
  unfoldable pub commit_terminal : Option (Failure E) → BranchState E → Reason → BranchState E
  commit_terminal cause b reason = if b.terminal then b else record b {
    notified = true;
    terminal = true;
    error = err_for_reason cause reason;
    closes = b.closes + 1;
  }

  abbrev pub woken : Option (Failure E) → BranchState E → Option Reason → BranchState E
  woken cause b none = record b { notified = true }
  woken cause b (some reason) = commit_terminal cause (record b { notified = true }) reason

  abbrev pub swept : Option (Failure E) → Option (BranchState E) → Option (BranchState E)
  swept cause none = none
  swept cause (some b) = some (commit_terminal cause b Reason.client_dead)

module _ {E T : Type 0} where
  abbrev pub put_branch : Session E T → ℕ → BranchState E → Session E T
  put_branch s id b = record s { branches = λ u. if nat_eq u id then some b else s.branches u }

  -- `Machine.Terminal`
  abbrev pub terminal_of : Wreck T → Session E T → ℕ → Option Reason
  terminal_of w s id = elim s.machine [ none ↦ w.terminal_of id | some m ↦ terminal m id ]

  -- The completion goes to the channel of its ticket, which waits no more.
  abbrev pub release_one : Session E T → Completion T → Session E T
  release_one s c = record s {
    waiting = λ u. s.waiting u && not (nat_eq u c.ticket);
    channels = λ u. if nat_eq u c.ticket then s.channels u ++ c ∷ [] else s.channels u;
  }

  -- The first loop of `deliverLocked`.
  unfoldable pub release : Session E T → List (Completion T) → Session E T
  release s [] = s
  release s (c ∷ cs) = release (if s.waiting c.ticket then release_one s c else s) cs

  abbrev pub wake_one : Session E T → ℕ → Option (BranchState E) → Option Reason → Session E T
  wake_one s id none reason = s
  wake_one s id (some b) reason = put_branch s id (woken s.cause b reason)

  -- The second loop of `deliverLocked`.
  unfoldable pub wake_all : Wreck T → Session E T → List ℕ → Session E T
  wake_all w s [] = s
  wake_all w s (id ∷ ids) = wake_all w (wake_one s id (s.branches id) (terminal_of w s id)) ids

  -- `deliverLocked`
  unfoldable pub deliver : Wreck T → Session E T → Effects T → Session E T
  deliver w s fx = wake_all w (release s fx.complete) fx.wakes

  -- `sweepLocked`. A round of either loop touches one channel or one branch, so that all act at once.
  unfoldable pub sweep : Session E T → Session E T
  sweep s = record s {
    waiting = λ t. false;
    channels = λ t. if s.waiting t then s.channels t ++ undelivered t ∷ [] else s.channels t;
    branches = λ id. swept s.cause (s.branches id);
  }

  -- `commitCauseLocked`
  abbrev pub commit_cause : Session E T → Failure E → Session E T
  commit_cause s e = record s { terminated = true; cause = some e }

  abbrev pub commit_fatal : Session E T → Option Fatality → Session E T
  commit_fatal s none = s
  commit_fatal s (some f) = if s.terminated then s else commit_cause s (fatal_error f)

  -- `applyLockedFx`
  unfoldable pub apply_effects : Wreck T → Session E T → Effects T → Session E T
  apply_effects w s fx =
      let d = deliver w (commit_fatal s fx.fatal) fx in if d.terminated then sweep d else d

  -- `Kill` in `die`: a panic is recovered, and then there are no effects.
  abbrev pub killed : Wreck T → Session E T → Session E T × Effects T
  killed w s = elim s.machine [
    | none ↦ (s, w.effects)
    | some m ↦ elim (kill m Reason.killed) [
      | ok (m', fx) ↦ (record s { machine = some m' }, fx)
      | err v ↦ (record s { machine = none }, no_effects)
    ]
  ]

  -- `die`, as far as the lock is held.
  unfoldable pub die : Wreck T → Session E T → Failure E → Session E T
  die w s e =
      let (k, fx) = killed w (commit_cause s e) in
      if s.terminated then s else sweep (deliver w k fx)

  -- A panic of `Route` ends in the recovery of the read loop.
  abbrev pub routed :
      Wreck T → Session E T → Outcome Violation (Machine T × Effects T) → Session E T
  routed w s (ok (m, fx)) = apply_effects w (record s { machine = some m }) fx
  routed w s (err v) = die w (record s { machine = none }) Failure.panicked

  abbrev pub route_with : Wreck T → Session E T → Envelope → T → Option (Machine T) → Session E T
  route_with w s env msg none = die w s Failure.panicked
  route_with w s env msg (some m) = routed w s (route m env msg)

  -- `routeOne` on the message with this envelope, and the recovery of the read loop.
  unfoldable pub route_one : Wreck T → Session E T → Envelope → T → Session E T
  route_one w s env msg = route_with w s env msg s.machine
