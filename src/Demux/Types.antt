-- ===== src/Demux/Types.antt =====
-- internal/demux/types.go, and the data of branch.go, pending.go, retire.go and limits.go.
use mathlib.Core.Option.{Option}
use ami.Base.{ℕ, Bool, true, false, List, Bytes}

-- `unset` is the zero value of the Go type.
pub data Kind : Type 0 where
  unset request list : Kind

abbrev pub same_kind : Kind → Kind → Bool
same_kind Kind.unset Kind.unset = true
same_kind Kind.request Kind.request = true
same_kind Kind.list Kind.list = true
same_kind _ _ = false

pub data Class : Type 0 where
  invalid event response : Class

pub data Mark : Type 0 where
  none start complete cancelled : Mark

pub record Envelope : Type 0 where
  pub class : Class
  pub name : Bytes
  pub action_id : Bytes
  pub own : Bool
  pub kind : Kind
  pub mark : Mark
  pub success : Bool
  pub size : ℕ
  pub now : ℕ

pub data Reason : Type 0 where
  none envelope_invalid response_no_id response_foreign response_unmatched : Reason
  retirement_expired killed lagged overflow cancelled count_mismatch count_malformed : Reason
  closed client_dead : Reason

-- A declared count is an int64, which may be negative.
pub data ℤ : Type 0 where
  pos : ℕ → ℤ
  negsuc : ℕ → ℤ

pub data CountVerdict : Type 0 where
  absent declared malformed : CountVerdict

-- `response` is `none` where Go leaves the zero value of the payload.
pub record Completion (T : Type 0) : Type 0 where
  pub ticket : ℕ
  pub response : Option T
  pub delivered : Bool

pub record Fatality : Type 0 where
  pub reason : Reason
  pub kind : Kind

pub record Effects (T : Type 0) : Type 0 where
  pub wakes : List ℕ
  pub complete : List (Completion T)
  pub fatal : Option Fatality

pub data TakeState : Type 0 where
  item empty eof terminal : TakeState

pub record TakeResult : Type 0 where
  pub state : TakeState
  pub reason : Reason

pub record Counters : Type 0 where
  pub late_list_discards : ℕ
  pub quarantined : ℕ
  pub unmatched : ℕ

pub record Snapshot : Type 0 where
  pub counters : Counters
  pub subscriptions : ℕ
  pub lists : ℕ
  pub pending : ℕ
  pub retirements : ℕ
  pub subscription_bytes : ℕ
  pub list_bytes : ℕ

-- limits.go

pub record Limits : Type 0 where
  pub max_pending : ℕ
  pub max_subscriptions : ℕ
  pub max_subscription_bytes : ℕ
  pub max_lists : ℕ
  pub max_list_bytes : ℕ
  pub max_matcher_names : ℕ
  pub max_matcher_bytes : ℕ
  pub max_retirement : ℕ
  pub retirement_lifetime : ℕ

pub record Caps : Type 0 where
  pub items : ℕ
  pub bytes : ℕ

pub record FollowOptions : Type 0 where
  pub events : List Bytes
  pub completions : List Bytes
  pub caps : Caps

pub record ListOptions (T : Type 0) : Type 0 where
  pub completions : List Bytes
  pub caps : Caps
  pub observed_bytes : ℕ
  pub count : Option (T → ℤ × CountVerdict)

pub record AdmitOptions (T : Type 0) : Type 0 where
  pub internal : Bool
  pub follow : Option FollowOptions
  pub listing : Option (ListOptions T)

pub data Error : Type 0 where
  dead pending_limit retirement_limit subscription_limit list_limit matcher_limit : Error
  internal_busy invalid_options : Error

-- The panics of `violated`, one constructor for each message. `dangling` has no message: it is a
-- nil pointer dereference.
pub data Violation : Type 0 where
  pop_empty route_dead size_not_positive kind_diverged completed_indexed list_streaming : Violation
  own_without_kind second_terminal duplicate_id unknown_ticket resolved_twice : Violation
  abort_after_response abandon_not_in_flight abandon_without_slot adopt_not_held : Violation
  close_not_held close_live_list record_without_evidence duplicate_record : Violation
  close_unadopted list_pre_response take_unadopted take_unknown missing_from_order : Violation
  holds_survived sub_caps follow_caps sub_diverged sub_limit list_caps list_diverged : Violation
  list_limit holds_diverged retirement_limit pending_diverged routing_survived dangling : Violation

-- branch.go

pub data Phase : Type 0 where
  active draining dead : Phase

pub data ListPhase : Type 0 where
  buffering buffered_complete buffered_cancelled streaming draining dead : ListPhase

abbrev pub is_active : Phase → Bool
is_active Phase.active = true
is_active _ = false

-- pending.go

pub data PendingState : Type 0 where
  reserved in_flight completed : PendingState

abbrev pub is_completed : PendingState → Bool
is_completed PendingState.completed = true
is_completed _ = false

-- A pointer to a follow or a list is the branch's id, which is never used twice.
pub record Pending : Type 0 where
  pub ticket : ℕ
  pub action_id : Bytes
  pub kind : Kind
  pub internal : Bool
  pub state : PendingState
  pub committed : Bool
  pub dead_done : Bool
  pub ret_held : Bool
  pub fol : Option ℕ
  pub fol_open : Bool
  pub lst : Option ℕ
  pub lst_open : Bool

-- retire.go. A nil name set is `none`.
pub record Record : Type 0 where
  pub action_id : Bytes
  pub kind : Kind
  pub deadline : ℕ
  pub internal : Bool
  pub need_response : Bool
  pub need_mark : Bool
  pub completions : Option (List Bytes)
  pub absorbed : ℕ
