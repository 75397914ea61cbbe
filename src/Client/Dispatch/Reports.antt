-- ===== src/Client/Dispatch/Reports.antt =====
-- What the caller of an action is told of its write.
use ami.Base.{
  ℕ, ◌<◌, ◌≡◌, [], Option, some, none, Bytes, length, if◌then◌else◌, Outcome, ok, err, ◌>>=◌,
}
use ami.Demux.Types.{Violation}
use ami.Demux.Pending.{commit_write}
use ami.Demux.Returns.{Returns, Returns-bind}
use ami.Wire.Types as Wire
use ami.Wire.Writer.{append_message}
use ami.Client.Message.{Message, Action}
use ami.Client.Framer.{Framer, World, Written, Disposition, Error, envelope_fields, write_action}
use ami.Client.Framer.Writes.{Promise, write_action-Promise}
use ami.Client.Session.{Failure, Wreck}
use ami.Client.Dispatch.{
  Client, RequestError, Branches, must, not_sent, resolve_not_sent, settle, write_admitted,
}

-- What the caller learns is true of the bytes that the transport took: with no error, it took the
-- whole message; with an error that rules an execution out, nothing; with one that does not, a byte
-- at least.
abbrev pub Reported : Outcome Wire.Error Bytes → Bytes → Option RequestError → Type 0
Reported message sent none = message ≡ ok sent
Reported message sent (some e) = if e.may_have_executed then (0 < length sent) else (sent ≡ [])

not_sent-Reported :
    (w : Wreck Message) (id : Bytes) (r : Written) (message : Outcome Wire.Error Bytes)
    (x : Client × Option (Failure Error))
    → r.sent ≡ []
    → Reported message r.sent (not_sent w id r x).1
not_sent-Reported w id r message (s, some fatal) h = h
not_sent-Reported w id r message (s, none) h = h

anything : {A : Type 0} (o : Outcome Violation A) → Returns (λ a. Unit {0}) o
anything (ok a) = tt
anything (err v) = tt

unsent-Reported :
    (w : Wreck Message) (s : Client) (id : Bytes) (t : ℕ) (b : Branches) (now : ℕ) (r : Written)
    (message : Outcome Wire.Error Bytes)
    → r.sent ≡ []
    → Returns
        (λ x. Reported message r.sent x.1)
        (resolve_not_sent w s t b now (s.channels t) >>= λ x. ok (not_sent w id r x))
unsent-Reported w s id t b now r message h =
    Returns-bind (λ a. Unit {0}) _ (resolve_not_sent w s t b now (s.channels t)) _ (anything _)
      (λ x u. not_sent-Reported w id r message x h)

settle-Reported :
    (w : Wreck Message) (s : Client) (id : Bytes) (t : ℕ) (b : Branches) (now : ℕ) (r : Written)
    (f : Framer) (message : Outcome Wire.Error Bytes) (d : Disposition)
    → Promise d f message r
    → Returns (λ x. Reported message r.sent x.1) (settle w s id t b now r d)
settle-Reported w s id t b now r f message Disposition.complete p =
    Returns-bind (λ a. Unit {0}) _ (must s (λ m. commit_write m t)) _ (anything _) (λ a u. p.0)
settle-Reported w s id t b now r f message Disposition.outcome_unknown p = p.0
settle-Reported w s id t b now r f message Disposition.rejected p =
    unsent-Reported w s id t b now r message p.0
settle-Reported w s id t b now r f message Disposition.canceled p =
    unsent-Reported w s id t b now r message p.0
settle-Reported w s id t b now r f message Disposition.closed p =
    unsent-Reported w s id t b now r message p.0
settle-Reported w s id t b now r f message Disposition.not_sent p =
    unsent-Reported w s id t b now r message p.0

-- An action is written, whatever the transport does, and the session resolves the write, whatever has
-- happened to it meanwhile and unless the machine panics. Then the error of the caller is true: with
-- none, the transport has taken exactly the encoded message; with one whose `MayHaveExecuted` is
-- false, it has taken no byte; with one whose `MayHaveExecuted` is true, a byte at least.
pub write_admitted-Reported :
    (w : Wreck Message) (s : Client) (f : Framer) (world : World) (a : Action) (id : Bytes) (t : ℕ)
    (b : Branches) (now : ℕ)
    → Returns
        (λ x.
          Reported
            (append_message [] (envelope_fields a id) f.lim)
            (write_action f world a id).sent
            x.1)
        (write_admitted w s id t b now (write_action f world a id))
unfolding write_admitted
write_admitted-Reported w s f world a id t b now =
    settle-Reported w s id t b now (write_action f world a id) f
      (append_message [] (envelope_fields a id) f.lim) (write_action f world a id).disposition
      (write_action-Promise f world a id)
