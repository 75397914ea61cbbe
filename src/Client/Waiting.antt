-- ===== src/Client/Waiting.antt =====
-- dispatch.go: the admission of an action, the wait for its response, and `admitError`.
pub mod Answers
pub mod Runs
use ami.Base.{
  ℕ, Bool, true, false, not, ◌||◌, List, [], ◌∷◌, Option, some, none, Bytes, nat_eq, if◌then◌else◌,
  Outcome, ok, err, ◌>>=◌,
}
use ami.Demux.Types.{Kind, Completion, Violation, AdmitOptions}
use ami.Demux.Types as Demux
use ami.Demux.Machine.{Machine}
use ami.Demux.Pending.{admit, abandon}
use ami.Client.Message.{Message}
use ami.Client.Session.{Failure, Session}
use ami.Client.Dispatch.{Client, RequestPhase, RequestError, must, drop_waiter}

-- What an action that is not registered fails with. Each limit stands for the text of its cause.
pub data AdmissionError : Type 0 where
  closed pending_limit retirement_limit list_limit matcher_limit invalid_options : AdmissionError

-- `admitError`
unfoldable pub admit_error : Demux.Error → AdmissionError
admit_error Demux.Error.dead = AdmissionError.closed
admit_error Demux.Error.pending_limit = AdmissionError.pending_limit
admit_error Demux.Error.retirement_limit = AdmissionError.retirement_limit
admit_error Demux.Error.list_limit = AdmissionError.list_limit
admit_error Demux.Error.matcher_limit = AdmissionError.matcher_limit
admit_error e = AdmissionError.invalid_options

-- A new channel for the ticket, which waits on it.
abbrev pub add_waiter : Client → ℕ → Client
add_waiter s t = record s {
  waiting = λ u. nat_eq u t || s.waiting u;
  channels = λ u. if nat_eq u t then [] else s.channels u;
}

abbrev pub admitted :
    Client → Machine Message × Outcome Demux.Error ℕ → Client × Outcome AdmissionError ℕ
admitted s (m, err e) = (record s { machine = some m }, err (admit_error e))
admitted s (m, ok t) = (add_waiter (record s { machine = some m }) t, ok t)

abbrev pub register_at :
    Client
    → Bytes
    → Kind
    → AdmitOptions Message
    → Option (Machine Message)
    → Outcome Violation (Client × Outcome AdmissionError ℕ)
register_at s id kind o none = err Violation.dangling
register_at s id kind o (some m) = admit m id kind o >>= λ x. ok (admitted s x)

-- The registration of `dispatch`, under the lock.
unfoldable pub register :
    Client
    → Bytes
    → Kind
    → AdmitOptions Message
    → Outcome Violation (Client × Outcome AdmissionError ℕ)
register s id kind o =
    if s.terminated then ok (s, err AdmissionError.closed) else register_at s id kind o s.machine

-- `await` when the context is done, by what the channel of the ticket holds.
abbrev pub give_up :
    Client
    → Bytes
    → ℕ
    → ℕ
    → Failure ami.Client.Framer.Error
    → List (Completion Message)
    → Outcome Violation (Client × Outcome RequestError (Completion Message))
give_up s id t now cause (c ∷ cs) = ok (s, ok c)
give_up s id t now cause [] =
    let failed : RequestError = record {
      phase = RequestPhase.response;
      action_id = id;
      may_have_executed = true;
      cause = cause;
    } in
    if s.terminated
    then ok (drop_waiter s t, err failed)
    else must (drop_waiter s t) (λ m. abandon m t now) >>= λ s'. ok (s', err failed)

unfoldable pub await :
    Client
    → Bytes
    → ℕ
    → ℕ
    → Failure ami.Client.Framer.Error
    → Outcome Violation (Client × Outcome RequestError (Completion Message))
await s id t now cause = give_up s id t now cause (s.channels t)
