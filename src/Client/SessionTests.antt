-- ===== src/Client/SessionTests.antt =====
-- A session with one action, and the theorems of the session at it.
use ami.Base.{
  ◌≡◌, refl, true, false, [], ◌∷◌, some, none, Bytes, lookup, insert, delete, length, ok, err,
  bytes_eq,
}
use ami.Demux.Types.{Kind, Class, Mark, Envelope, AdmitOptions, Violation, Completion, Effects}
use ami.Demux.Types as Demux
use ami.Demux.Machine.{Machine, new, check, no_effects}
use ami.Demux.Death.{
  kill_cascade, kill_pendings, kill_pending, kill_subs, kill_follows, kill_lists, bury,
  maybe_release_ticket, release_ret_hold, fatal,
}
use ami.Demux.Route.{
  route, route_class, route_strict, route_response, complete_pending, settle_response, evidence_for,
}
use ami.Demux.Pending.{
  Names, admit, admissible, well_formed, has_room, follow_names, list_names, is_known, enter,
  reserve, register_branch, commit_write, ticket, conclude,
}
use ami.Demux.Returns.{Returns}
use ami.Wire.Types as Wire
use ami.Wire.Writer.{append_message}
use ami.Client.Message.{Message, Action}
use ami.Client.Framer.{Framer, World, Cause, Fault, Error, envelope_fields, write_action}
use ami.Client.Session.{
  Failure, Wreck, die, route_one, apply_effects, deliver, release, wake_all, sweep,
}
use ami.Client.Session.Termination.{Released, die-Released, route_one-Released}
use ami.Client.Session.Sending.{first_for, Sent, route_one-Sent}
use ami.Client.Waiting.Runs.{Step, Runs}
use ami.Client.Dispatch.{Client, Branches, must, write_admitted}
use ami.Client.Dispatch.Reports.{Reported, write_admitted-Reported}
use ami.Client.Waiting.{add_waiter, register}
use ami.Client.Waiting.Answers.{register-answered, register-routed}

abbrev machine_lim : Demux.Limits
machine_lim = record {
  max_pending = 2;
  max_subscriptions = 2;
  max_subscription_bytes = 100;
  max_lists = 2;
  max_list_bytes = 100;
  max_matcher_names = 4;
  max_matcher_bytes = 40;
  max_retirement = 4;
  retirement_lifetime = 10;
}

abbrev idle : Client
idle = record {
  machine = some (new machine_lim);
  waiting = λ t. false;
  channels = λ t. [];
  branches = λ id. none;
  terminated = false;
  cause = none;
}

abbrev id : Bytes
id = b'r' ∷ b'1' ∷ []

abbrev plain : AdmitOptions Message
plain = record { internal = false; follow = none; listing = none }

abbrev no_names : Names
no_names = record { fol_events = none; fol_completions = none; lst_completions = none }

abbrev entered : Machine Message
entered = enter (new machine_lim) id Kind.request plain no_names

abbrev asked : Client
asked = add_waiter (record idle { machine = some entered }) 1

registered : register idle id Kind.request plain ≡ ok (asked, ok 1)
unfolding register admit admissible well_formed has_room follow_names list_names is_known enter
    reserve register_branch new check lookup insert
registered = refl

abbrev silent : Wreck Message
silent = record {
  effects = record { wakes = []; complete = []; fatal = none };
  terminal_of = λ id. none;
}

abbrev cut_off : Failure Error
cut_off = Failure.external (Error.stream Wire.Error.unexpected_eof)

die-Released_example :
    Released asked (die silent asked cut_off) × ((die silent asked cut_off).cause ≡ some cut_off)
die-Released_example = die-Released silent asked cut_off refl

-- The write is committed, and the session then dies.
abbrev committed : Machine Message
committed = elim (commit_write entered 1) [ ok m ↦ m | err v ↦ entered ]

abbrev written : Client
written = record asked { machine = some committed }

commits : must asked (λ m. commit_write m 1) ≡ ok written
unfolding commit_write ticket conclude maybe_release_ticket enter register_branch reserve new insert
    lookup delete check
commits = refl

dying : Runs 1 asked (die silent written cut_off)
dying =
    Runs.next (Runs.next Runs.here (Step.calls (λ m. commit_write m 1) refl commits))
      (Step.dies silent cut_off refl refl)

dead : (die silent written cut_off).terminated ≡ true
dead = (die-Released silent written cut_off refl).0.over

register-answered_example :
    ((die silent written cut_off).waiting 1 ≡ false)
    × (length ((die silent written cut_off).channels 1) ≡ 1)
register-answered_example =
    register-answered idle asked (die silent written cut_off) 1 id Kind.request plain registered
      dying dead

-- A response to an ActionID that the session did not issue.
abbrev foreign : Envelope
foreign = record {
  class = Class.response;
  name = [];
  action_id = b'q' ∷ [];
  own = false;
  kind = Kind.unset;
  mark = Mark.none;
  success = true;
  size = 10;
  now = 1;
}

abbrev blank : Message
blank = record { fields = [] }

foreign_fatal : (route_one silent asked foreign blank).terminated ≡ true
unfolding route_one route route_class route_strict route_response fatal kill_cascade kill_pendings
    kill_pending kill_subs kill_follows kill_lists bury maybe_release_ticket release_ret_hold enter
    register_branch reserve new insert lookup delete check apply_effects deliver release wake_all
    sweep
foreign_fatal = refl

route_one-Released_example : Released asked (route_one silent asked foreign blank)
route_one-Released_example = route_one-Released silent asked foreign blank refl foreign_fatal

-- The response to the registered action.
abbrev answer : Envelope
answer = record foreign { action_id = id; own = true; kind = Kind.request }

abbrev reached : Machine Message × Effects Message
reached = elim (route entered answer blank) [ ok x ↦ x | err v ↦ (entered, no_effects) ]

answer_routes : route entered answer blank ≡ ok reached
unfolding route route_class route_strict route_response fatal kill_cascade kill_pendings
    kill_pending kill_subs kill_follows kill_lists bury maybe_release_ticket release_ret_hold enter
    register_branch reserve new insert lookup delete check bytes_eq complete_pending settle_response
    evidence_for
answer_routes = refl

abbrev response : Completion Message
response = record { ticket = 1; response = some blank; delivered = true }

first_answer : first_for 1 reached.1.complete ≡ some response
unfolding first_for route route_class route_strict route_response fatal kill_cascade kill_pendings
    kill_pending kill_subs kill_follows kill_lists bury maybe_release_ticket release_ret_hold enter
    register_branch reserve new insert lookup delete check bytes_eq complete_pending settle_response
    evidence_for
first_answer = refl

route_one-Sent_example :
    Sent asked (route_one silent asked answer blank) 1 (first_for 1 reached.1.complete)
route_one-Sent_example =
    route_one-Sent silent asked answer blank entered reached.0 reached.1 1 refl answer_routes refl

register-routed_example :
    ((route_one silent asked answer blank).waiting 1 ≡ false)
    × ((route_one silent asked answer blank).channels 1 ≡ response ∷ [])
register-routed_example =
    register-routed idle asked asked (route_one silent asked answer blank) 1 id Kind.request plain
      silent answer blank entered reached.0 reached.1 response registered Runs.here refl refl
      answer_routes first_answer Runs.here

abbrev framer : Framer
framer = record {
  lim = record {
    max_banner_bytes = 20;
    max_line_bytes = 40;
    max_fields = 4;
    max_message_bytes = 100;
    max_command_output_lines = 4;
    max_command_output_bytes = 100;
    max_action_fields = 4;
    max_action_line_bytes = 30;
    max_action_bytes = 90;
  };
  closed = false;
}

-- The transport fails behind three bytes.
abbrev cut : World
cut = record {
  entry = none;
  written = 3;
  failed = some Fault.other;
  interrupted = false;
  cause = Cause.canceled;
  closing = false;
}

abbrev ping : Action
ping = record { name = b'P' ∷ b'i' ∷ b'n' ∷ b'g' ∷ []; fields = [] }

abbrev no_branches : Branches
no_branches = record { follow = false; list = false }

write_admitted-Reported_example :
    Returns
      (λ x.
        Reported
          (append_message [] (envelope_fields ping id) framer.lim)
          (write_action framer cut ping id).sent
          x.1)
      (write_admitted silent asked id 1 no_branches 5 (write_action framer cut ping id))
write_admitted-Reported_example =
    write_admitted-Reported silent asked framer cut ping id 1 no_branches 5
