-- ===== src/Client/SettingsTests.antt =====
-- The theorems on counts and settings at small values.
use ami.Base.{◌≡◌, ◌↔◌, refl, [], ◌∷◌, ◌++◌, some, Bytes, ok, arith}
use ami.Demux.Types.{pos, CountVerdict}
use ami.Wire.Types.{Field, validate}
use ami.Wire.Types as Wire
use ami.Wire.Folding.{equal_fold}
use ami.Client.Message.{Message, lookup_key, lookup_field}
use ami.Client.Classify.{format_uint}
use ami.Client.Counts.{extract}
use ami.Client.Counts.Declared.{AllAbsent, extract-format_uint, IsMalformed, extract-IsMalformed}
use ami.Client.Settings.{
  WireLimits, default_wire, default_age, resolve_wire, SessionConfig, resolve_session,
}
use ami.Client.Settings.Resolution.{IsResolved, resolve_wire-validate}
use ami.Client.Settings.Sessions.{AllSet, session, resolve_session-session}

abbrev items_key : Bytes
items_key = b'I' ∷ b't' ∷ b'e' ∷ b'm' ∷ b's' ∷ []

abbrev list_items_key : Bytes
list_items_key = b'L' ∷ b'i' ∷ b's' ∷ b't' ∷ items_key

abbrev completion : Message
completion = record { fields = record { key = items_key; value = format_uint 12 } ∷ [] }

only_items : AllAbsent completion (list_items_key ∷ [])
unfolding lookup_field equal_fold
only_items = (refl, tt)

items_value : lookup_key completion items_key ≡ some (format_uint 12)
unfolding lookup_field equal_fold
items_value = refl

extract-format_uint_example :
    extract ((list_items_key ∷ []) ++ (items_key ∷ [])) completion ≡ (pos 12, CountVerdict.declared)
extract-format_uint_example =
    extract-format_uint completion (list_items_key ∷ []) items_key [] 12 only_items items_value
      (omega arith)

-- A count below zero.
abbrev negative_count : Message
negative_count = record { fields = record { key = items_key; value = b'-' ∷ format_uint 3 } ∷ [] }

negative_absent : AllAbsent negative_count (list_items_key ∷ [])
unfolding lookup_field equal_fold
negative_absent = (refl, tt)

negative_value : lookup_key negative_count items_key ≡ some (b'-' ∷ format_uint 3)
unfolding lookup_field equal_fold
negative_value = refl

extract-IsMalformed_example :
    extract ((list_items_key ∷ []) ++ (items_key ∷ [])) negative_count
    ≡ (pos 0, CountVerdict.malformed)
extract-IsMalformed_example =
    extract-IsMalformed negative_count (list_items_key ∷ []) items_key [] (b'-' ∷ format_uint 3)
      negative_absent negative_value (IsMalformed.below 2)

abbrev one_set : WireLimits
one_set = record {
  max_banner_bytes = pos 0;
  max_line_bytes = pos 512;
  max_fields = pos 0;
  max_message_bytes = pos 0;
  max_command_output_lines = pos 0;
  max_command_output_bytes = pos 0;
  max_action_fields = pos 0;
  max_action_line_bytes = pos 0;
  max_action_bytes = pos 0;
  max_partial_frame_age = pos 0;
}

abbrev one_resolved : Wire.Limits
one_resolved = record default_wire { max_line_bytes = 512 }

one_resolved_lem : resolve_wire one_set ≡ ok (one_resolved, default_age)
unfolding resolve_wire
one_resolved_lem = refl

resolve_wire-validate_example :
    (validate one_resolved ≡ ok tt) × IsResolved one_set one_resolved default_age
resolve_wire-validate_example =
    resolve_wire-validate one_set one_resolved default_age one_resolved_lem

abbrev unset_session : SessionConfig
unset_session = record {
  write_admission = pos 0;
  write_attempt = pos 3;
  max_pending = pos 0;
  max_retirement = pos 0;
  retirement_lifetime = pos 0;
  max_subscriptions = pos 0;
  subscription_queue_items = pos 0;
  subscription_queue_bytes = pos 0;
  max_subscription_bytes = pos 0;
  max_matcher_names = pos 0;
  max_matcher_bytes = pos 0;
  max_lists = pos 0;
  list_queue_items = pos 0;
  list_queue_bytes = pos 0;
  list_observed_bytes = pos 0;
  max_list_bytes = pos 0;
}

resolve_session-session_example :
    (resolve_session unset_session ≡ ok (session unset_session))
    ↔ (AllSet unset_session × (session unset_session ≡ session unset_session))
resolve_session-session_example = resolve_session-session unset_session (session unset_session)
