-- ===== src/Demux/Tests.antt =====
-- A machine with a subscription, a follow, a list and a record, and the theorems of internal/demux
-- at it.
use ami.Base.{
  bytes_eq, keys, insert, ℕ, ◌≤◌, ◌≡◌, ◌⊎◌, refl, true, false, [], ◌∷◌, map, some, none, arith,
  Bytes, ok, err, lookup, All, number_eq, string_eq,
}
use ami.Demux.Types.{
  Kind, Class, Mark, Envelope, Reason, Phase, ListPhase, Limits, Caps, Record, Error, Effects,
  AdmitOptions, Pending, PendingState,
}
use ami.Demux.Queue.{Queue, Entry, len, push, pop, released}
use ami.Demux.Queue.Fifo.{IsValid, contents, pop_front}
use ami.Demux.Names.{fold, fold_set, declares}
use ami.Demux.Names.Folding.{fold_set-ok, NonEmpty}
use ami.Demux.Machine.{Machine, Subscription, Follow, ListBranch, advance, no_effects, save_list}
use ami.Demux.Death.{kill_pendings, kill_subs}
use ami.Demux.Cascade.Branches.{Ended, kill_subs-Ended}
use ami.Demux.Cascade.Waiters.{Completes, kill_pendings-Completes}
use ami.Demux.Retire.{next_deadline, earliest}
use ami.Demux.Retire.Deadlines.{Among, RunsOutFirst, expire_early, expire_due}
use ami.Demux.Death.{expire, fatal}
use ami.Demux.Branch.{holds, close, take_one}
use ami.Demux.Route.{route_event, route_own, route_own_list}
use ami.Demux.Route.Fanout.{fanout}
use ami.Demux.Route.Lists.{route_list_event, observed, completes, enqueue_item, reserve_list}
use ami.Demux.Isolation.{Apart, route_event-Apart}
use ami.Demux.Route.Delivery.{IsOrder, Reached}
use ami.Demux.Route.Reach.{fanout-Reached}
use ami.Demux.Ledger.{IsSound, QueueFits, Safe}
use ami.Demux.Ledger.ListEvents.{SoundAfter, route_list_event-Safe}
use ami.Demux.Ledger.Route.{route_event-Safe}
use ami.Demux.Pending.{
  commit_write, adopt_follow, close_follow, Names, admissible, admit, enter, is_known,
}
use ami.Demux.Ledger.Tickets.{commit_write-IsSound, adopt_follow-IsSound, close_follow-IsSound}
use ami.Demux.Ledger.Admission.{admit-IsSound}
use ami.Demux.Ledger.Take.{SoundTaken, take_one-Safe}
use ami.Demux.Ledger.Close.{close-Safe}

abbrev lim : Limits
lim = record {
  max_pending = 4;
  max_subscriptions = 4;
  max_subscription_bytes = 100;
  max_lists = 4;
  max_list_bytes = 100;
  max_matcher_names = 4;
  max_matcher_bytes = 40;
  max_retirement = 4;
  retirement_lifetime = 30;
}

abbrev caps : Caps
caps = record { items = 2; bytes = 20 }

abbrev one_message : Queue ℕ
one_message = record { entries = record { msg = some 7; size = 5 } ∷ []; head = 0; bytes = 5 }

abbrev sub : Subscription ℕ
sub = record {
  id = 1;
  phase = Phase.active;
  reason = Reason.none;
  names = none;
  caps = caps;
  q = one_message;
}

abbrev follow : Follow ℕ
follow = record {
  id = 2;
  action_id = (b'f' ∷ []);
  phase = Phase.active;
  reason = Reason.none;
  adopted = false;
  events = none;
  completions = some ((b'h' ∷ b'a' ∷ b'n' ∷ b'g' ∷ b'u' ∷ b'p' ∷ []) ∷ []);
  caps = caps;
  q = one_message;
}

abbrev listing : ListBranch ℕ
listing = record {
  id = 3;
  action_id = (b'l' ∷ []);
  phase = ListPhase.streaming;
  reason = Reason.none;
  adopted = true;
  completions = some ((b'd' ∷ b'o' ∷ b'n' ∷ b'e' ∷ []) ∷ []);
  count = none;
  caps = caps;
  observed_cap = 50;
  observed = 5;
  items = 1;
  completion = none;
  completion_size = 0;
  has_completion = false;
  response_seen = true;
  mark_seen = false;
  ret_held = true;
  q = one_message;
}

abbrev late : Record
late = record {
  action_id = (b'r' ∷ []);
  kind = Kind.request;
  deadline = 40;
  internal = false;
  need_response = true;
  need_mark = false;
  completions = none;
  absorbed = 0;
}

-- A request that is admitted with the follow, and not written yet.
abbrev waiting : Pending
waiting = record {
  ticket = 1;
  action_id = b'f' ∷ [];
  kind = Kind.request;
  internal = false;
  state = PendingState.reserved;
  committed = false;
  dead_done = false;
  ret_held = true;
  fol = some 2;
  fol_open = true;
  lst = none;
  lst_open = false;
}

abbrev busy : Machine ℕ
busy = record {
  lim = lim;
  now = 10;
  dead = false;
  dead_reason = Reason.none;
  next_ticket = 2;
  next_branch = 4;
  pend_by_action = ((b'f' ∷ []), 1) ∷ [];
  pend_by_ticket = (1, waiting) ∷ [];
  public_pending = 1;
  internal_active = false;
  internal_ret_held = false;
  sub_by_id = (1, sub) ∷ [];
  sub_order = 1 ∷ [];
  fol_by_id = (2, follow) ∷ [];
  fol_by_action = ((b'f' ∷ []), 2) ∷ [];
  list_by_id = (3, listing) ∷ [];
  list_by_action = ((b'l' ∷ []), 3) ∷ [];
  detached_lists = [];
  records = ((b'r' ∷ []), late) ∷ [];
  sub_bytes = 10;
  list_bytes = 5;
  ret_held = 2;
  ctr = record { late_list_discards = 0; quarantined = 0; unmatched = 0 };
}

-- An event of the client's own action `a`.
abbrev event_of : Bytes → Kind → Bytes → Envelope
event_of a kind name = record {
  class = Class.event;
  name = name;
  action_id = a;
  own = true;
  kind = kind;
  mark = Mark.none;
  success = true;
  size = 6;
  now = 12;
}

one_message-IsValid : IsValid one_message
one_message-IsValid = record { in_range = omega arith; charged = refl }

abbrev entry : Entry ℕ
entry = record { msg = some 7; size = 5 }

one_message-QueueFits : QueueFits caps one_message
unfolding len
one_message-QueueFits = record {
  valid = one_message-IsValid;
  few = omega arith;
  light = omega arith;
}

busy_announced : next_deadline busy ≡ some 40
unfolding next_deadline earliest
busy_announced = refl

busy-IsSound : IsSound busy
unfolding lookup
busy-IsSound = record {
  subs = record {
    subs_fit = ((record { keyed = refl; fits = one_message-QueueFits }), tt);
    follows_fit = ((record { keyed = refl; fits = one_message-QueueFits }), tt);
    balance = refl;
    room = omega arith;
  };
  lists = record {
    unique = (refl, tt);
    lists_fit = (
      (record {
        keyed = refl;
        fits = one_message-QueueFits;
        light = omega arith;
        settled = ((λ h. absurd (cc)), λ h. refl);
      }),
      tt,
    );
    spent = tt;
    balance = refl;
    room = omega arith;
  };
  slots = record {
    ticketed = ((refl, λ c. absurd (cc)), tt);
    recorded = (refl, tt);
    held_sum = refl;
    public_sum = refl;
    room = omega arith;
  };
  quiet = λ d. absurd (cc);
}

pop_front_example :
    (pop one_message ≡ ok (released one_message entry, some 7, 5))
    × (contents (released one_message entry) ≡ [])
    × IsValid (released one_message entry)
pop_front_example = pop_front one_message entry [] one_message-IsValid refl

one_name_folded : fold_set lim ((b'N' ∷ []) ∷ []) ≡ ok (some ((b'n' ∷ []) ∷ []))
unfolding fold_set
one_name_folded = refl

fold_set-ok_example :
    ((b'n' ∷ []) ∷ [] ≡ map fold ((b'N' ∷ []) ∷ []))
    × (1 ≤ 4)
    × (1 ≤ 40)
    × NonEmpty ((b'N' ∷ []) ∷ [])
fold_set-ok_example = fold_set-ok lim ((b'N' ∷ []) ∷ []) ((b'n' ∷ []) ∷ []) one_name_folded

take_one-Safe_example : Safe SoundTaken (take_one busy 3)
take_one-Safe_example = take_one-Safe busy 3 busy-IsSound

close-Safe_example : Safe IsSound (close busy 3 20)
close-Safe_example = close-Safe busy 3 20 busy-IsSound

route_list_event-Safe_example :
    Safe SoundAfter
      (route_list_event busy listing (event_of (b'l' ∷ []) Kind.list (b'n' ∷ [])) 8 no_effects)
route_list_event-Safe_example =
    route_list_event-Safe busy 3 listing (event_of (b'l' ∷ []) Kind.list (b'n' ∷ [])) 8 no_effects
      busy-IsSound (unfold lookup in refl)

route_event-Safe_example :
    Safe SoundAfter (route_event busy (event_of (b'f' ∷ []) Kind.request (b'n' ∷ [])) 8 no_effects)
route_event-Safe_example =
    route_event-Safe busy (event_of (b'f' ∷ []) Kind.request (b'n' ∷ [])) 8 no_effects busy-IsSound

expire_early_example : expire busy 39 ≡ ok (advance busy 39, no_effects)
expire_early_example = expire_early busy 40 39 refl busy_announced (omega arith)

expire_due_example :
    (r : Record) × (expire busy 45 ≡ fatal (advance busy 45) Reason.retirement_expired r.kind)
    × Among r busy.records
    × (r.deadline ≤ 45)
    × All (λ a x. RunsOutFirst r x) busy.records
expire_due_example = expire_due busy 40 45 refl busy_announced (omega arith)

busy-IsOrder : IsOrder busy.sub_by_id busy.sub_order
unfolding lookup holds
busy-IsOrder = ((sub, refl, refl, refl), refl, tt)

fanout-Reached_example :
    (r : Machine ℕ × Effects ℕ) × (fanout busy (event_of [] Kind.unset (b'n' ∷ [])) 8 no_effects
      ≡ ok r)
    × Reached (event_of [] Kind.unset (b'n' ∷ [])) 8 busy.sub_by_id r.0.sub_by_id busy.sub_order
    × IsOrder r.0.sub_by_id r.0.sub_order
fanout-Reached_example =
    fanout-Reached busy (event_of [] Kind.unset (b'n' ∷ [])) 8 no_effects busy-IsOrder

abbrev item : Envelope
item = event_of (b'l' ∷ []) Kind.list (b'n' ∷ [])

abbrev filled : Machine ℕ
filled = record busy {
  list_by_id =
      (
        3,
        record listing {
          observed = 11;
          items = 2;
          q = record {
            entries = entry ∷ record { msg = some 8; size = 6 } ∷ [];
            head = 0;
            bytes = 11;
          };
        },
      )
      ∷ [];
  list_bytes = 11;
}

item_queued : route_event busy item 8 no_effects ≡ ok (filled, record no_effects { wakes = 3 ∷ [] })
unfolding route_event route_own route_own_list lookup insert bytes_eq route_list_event observed
    completes declares enqueue_item reserve_list save_list len push
item_queued = refl

route_event-Apart_example : Apart busy filled
route_event-Apart_example =
    route_event-Apart busy filled item 8 no_effects (record no_effects { wakes = 3 ∷ [] }) refl refl
      item_queued

abbrev list_options : AdmitOptions ℕ
list_options = record {
  internal = false;
  follow = none;
  listing = some (record { completions = []; caps = caps; observed_bytes = 50; count = none });
}

x_unknown : is_known busy (b'x' ∷ []) ≡ false
unfolding is_known lookup bytes_eq
x_unknown = refl

admit-IsSound_example :
    ((e : Error) × (admissible busy (b'x' ∷ []) Kind.list list_options ≡ err e)
      × (admit busy (b'x' ∷ []) Kind.list list_options ≡ ok (busy, err e)))
    ⊎ ((names : Names) × (admissible busy (b'x' ∷ []) Kind.list list_options ≡ ok names)
        × (admit busy (b'x' ∷ []) Kind.list list_options
            ≡ ok (enter busy (b'x' ∷ []) Kind.list list_options names, ok 2))
        × IsSound (enter busy (b'x' ∷ []) Kind.list list_options names))
admit-IsSound_example =
    admit-IsSound busy (b'x' ∷ []) Kind.list list_options busy-IsSound (unfold lookup in refl)
      (unfold lookup in refl) (unfold lookup in refl) x_unknown

commit_write-IsSound_example : (n : Machine ℕ) × (commit_write busy 1 ≡ ok n) × IsSound n
commit_write-IsSound_example =
    commit_write-IsSound busy 1 waiting busy-IsSound (unfold lookup in refl) refl

adopt_follow-IsSound_example : (n : Machine ℕ) × (adopt_follow busy 1 ≡ ok (n, 2)) × IsSound n
adopt_follow-IsSound_example =
    adopt_follow-IsSound busy 1 2 waiting follow busy-IsSound (unfold lookup in refl) refl refl
      (unfold lookup in refl)

close_follow-IsSound_example : (n : Machine ℕ) × (close_follow busy 1 ≡ ok n) × IsSound n
close_follow-IsSound_example =
    close_follow-IsSound busy 1 2 waiting follow busy-IsSound (unfold lookup in refl) refl refl
      (unfold lookup in refl)

kill_pendings-Completes_example :
    (r : Machine ℕ × Effects ℕ) × (kill_pendings (keys busy.pend_by_ticket) busy no_effects ≡ ok r)
    × Completes 1 r.1.complete
kill_pendings-Completes_example =
    kill_pendings-Completes busy no_effects 1 waiting (unfold lookup in (refl, tt))
      busy-IsSound.slots.ticketed (unfold lookup in refl) refl

kill_subs-Ended_example :
    (r : Machine ℕ × Effects ℕ) × (kill_subs busy.sub_order busy no_effects ≡ ok r)
    × Ended 1 r.0.sub_by_id r.1.wakes
kill_subs-Ended_example = kill_subs-Ended busy no_effects 1 busy-IsOrder (unfold holds in refl)
