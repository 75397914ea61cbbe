-- ===== src/Client/Dispatch.antt =====
-- dispatch.go: what becomes of an action behind its write.
pub mod Reports
use ami.Base.{
  ℕ, ◌+◌, Bool, true, false, not, ◌&&◌, List, [], ◌∷◌, Option, some, none, Bytes, nat_eq,
  if◌then◌else◌, Outcome, ok, err, ◌>>=◌, ◌>>◌,
}
use ami.Demux.Types.{Kind, Reason, Completion, Fatality, Effects, Violation}
use ami.Demux.Machine.{Machine}
use ami.Demux.Death.{kill}
use ami.Demux.Branch.{close}
use ami.Demux.Pending.{commit_write, abort_not_sent, close_follow, adopt_list, close_list, abandon}
use ami.Client.Message.{Message}
use ami.Client.Classify.{response_success}
use ami.Client.Framer.{Written, Disposition, Error}
use ami.Client.Session.{Failure, Session, Wreck, cause_or_closed, apply_effects, die}

abbrev pub Client : Type 0
Client = Session Error Message

pub data RequestPhase : Type 0 where
  admission write response : RequestPhase

pub record RequestError : Type 0 where
  pub phase : RequestPhase
  pub action_id : Bytes
  pub may_have_executed : Bool
  pub cause : Failure Error

-- A machine call that may panic, on the caller's goroutine.
abbrev pub must :
    Client → (Machine Message → Outcome Violation (Machine Message)) → Outcome Violation Client
must s f = elim s.machine [
  | none ↦ err Violation.dangling
  | some m ↦ f m >>= λ m'. ok (record s { machine = some m' })
]

abbrev pub recovered : Client → Outcome Violation (Machine Message) → Client
recovered s (ok m) = record s { machine = some m }
recovered s (err v) = record s { machine = none }

-- `resolveDeadLocked`
abbrev pub resolve_dead : Client → (Machine Message → Outcome Violation (Machine Message)) → Client
resolve_dead s f = elim s.machine [ none ↦ s | some m ↦ recovered s (f m) ]

-- `delete(c.waiters, tkt)`
abbrev pub drop_waiter : Client → ℕ → Client
drop_waiter s t = record s { waiting = λ u. s.waiting u && not (nat_eq u t) }

-- What the options of an admission say of its branches.
pub record Branches : Type 0 where
  pub follow : Bool
  pub list : Bool

abbrev pub succeeded : Option Message → Bool
succeeded none = false
succeeded (some m) = response_success m

abbrev pub when :
    Bool
    → Client
    → (Machine Message → Outcome Violation (Machine Message))
    → Outcome Violation Client
when true s f = must s f
when false s f = ok s

-- The death of `resolveNotSent`: a response has answered an action that was never sent.
abbrev pub unmatched : Wreck Message → Client → Outcome Violation Client
unmatched w s = elim s.machine [
  | none ↦ err Violation.dangling
  | some m ↦ kill m Reason.response_unmatched >>= λ (m', fx). ok (
      apply_effects w (record s { machine = some m' })
        (record fx {
          fatal = some (record { reason = Reason.response_unmatched; kind = Kind.unset });
        }))
]

-- The branch of `resolveNotSent` with a delivered completion in the channel.
unfoldable pub undo :
    Wreck Message
    → Client
    → ℕ
    → Branches
    → ℕ
    → Option Message
    → Outcome Violation (Client × Option (Failure Error))
undo w s t b now answer = do
  s₁ ← must s (λ m. commit_write m t)
  s₂ ← when b.follow s₁ (λ m. close_follow m t)
  s₃ ← when (b.list && succeeded answer) s₂ (λ m. adopt_list m t >>= λ (m', id). close m' id now)
  s₄ ← unmatched w s₃
  ok (s₄, some (cause_or_closed s₄.cause))

-- `resolveNotSent`, by what the channel of the ticket holds.
unfoldable pub resolve_not_sent :
    Wreck Message
    → Client
    → ℕ
    → Branches
    → ℕ
    → List (Completion Message)
    → Outcome Violation (Client × Option (Failure Error))
resolve_not_sent w s t b now [] = do
  s' ← must (drop_waiter s t) (λ m. abort_not_sent m t)
  ok (s', none)
resolve_not_sent w s t b now (c ∷ cs) =
    if c.delivered
    then undo w s t b now c.response
    else ok (resolve_dead s (λ m. abort_not_sent m t), none)

abbrev pub failure_of : Option Error → Failure Error
failure_of none = Failure.closed
failure_of (some e) = Failure.external e

abbrev pub written_error : Bytes → Bool → Failure Error → Option RequestError
written_error id may cause =
    some (record {
      phase = RequestPhase.write;
      action_id = id;
      may_have_executed = may;
      cause = cause;
    })

-- A write that has sent nothing, behind `resolveNotSent`.
abbrev pub not_sent :
    Wreck Message → Bytes → Written → Client × Option (Failure Error) → Client × Option RequestError
not_sent w id r (s, some fatal) = (s, written_error id false fatal)
not_sent w id r (s, none) =
    let left : Client = elim r.disposition [
      | Disposition.not_sent ↦ die w s (failure_of r.error)
      | d ↦ s
    ] in
    (left, written_error id false (failure_of r.error))

-- A write that may have sent bytes.
abbrev pub outcome_unknown :
    Wreck Message → Client → Bytes → ℕ → Branches → Written → Client × Option RequestError
outcome_unknown w s id t b r =
    let s₁ = resolve_dead (drop_waiter (die w s (failure_of r.error)) t) (λ m. commit_write m t) in
    let s₂ = if b.follow then resolve_dead s₁ (λ m. close_follow m t) else s₁ in
    let s₃ = if b.list then resolve_dead s₂ (λ m. close_list m t) else s₂ in
    (s₃, written_error id true (failure_of r.error))

-- By the disposition of the write.
abbrev pub settle :
    Wreck Message
    → Client
    → Bytes
    → ℕ
    → Branches
    → ℕ
    → Written
    → Disposition
    → Outcome Violation (Client × Option RequestError)
settle w s id t b now r Disposition.complete =
    must s (λ m. commit_write m t) >>= λ s'. ok (s', none)
settle w s id t b now r Disposition.outcome_unknown = ok (outcome_unknown w s id t b r)
settle w s id t b now r d =
    resolve_not_sent w s t b now (s.channels t) >>= λ x. ok (not_sent w id r x)

-- `writeAdmitted`, on what `writeAction` has returned. The session is as it is when the lock is taken.
unfoldable pub write_admitted :
    Wreck Message
    → Client
    → Bytes
    → ℕ
    → Branches
    → ℕ
    → Written
    → Outcome Violation (Client × Option RequestError)
write_admitted w s id t b now r = settle w s id t b now r r.disposition
