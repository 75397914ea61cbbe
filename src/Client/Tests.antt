-- ===== src/Client/Tests.antt =====
-- Runs and instances of the root package.
use ami.Base.{◌+◌, ◌≡◌, ◌≢◌, refl, true, false, [], ◌∷◌, ◌++◌, List, some, none, Bytes, ok, arith}
use ami.Demux.Types.{Kind, Class, Mark, Envelope, ℤ, pos, negsuc, CountVerdict}
use ami.Demux.Types as Demux
use ami.Demux.Names.{fold_set, fold, fold_names, contains}
use ami.Wire.Types.{Field, validate}
use ami.Wire.Types as Wire
use ami.Wire.Folding.{equal_fold}
use ami.Wire.Writer.{contains_any, append_message, check_fields, encode, is_break}
use ami.Wire.Lines.{Reader, Ending}
use ami.Wire.Reader.{read_message}
use ami.Wire.Exchange.{Admits, after}
use ami.Client.Message.{
  Message, Action, new_action, new_event, new_response, validate_name, validate_fields, is_reserved,
  values, values_of, event_key, event_list_key, action_id_key, response_key,
}
use ami.Client.Classify.{
  classify, wire_size, fold_ascii, parse_action_id, new_action_id, format_uint, digits,
}
use ami.Client.Classify.Folding.{is_declared, contains-is_declared}
use ami.Client.Classify.Ids.{parse_action_id-new_action_id, new_action_id-injective}
use ami.Client.Classify.Envelopes.{
  classify-new_event, classify-new_action_id, IsOwnResponse, IsOwnEvent,
}
use ami.Client.Framer.{
  Framer, World, Disposition, Cause, Fault, envelope_fields, write_action, transmit,
}
use ami.Client.Framer.Writes.{Promise, write_action-Promise}
use ami.Client.Framer.Delivery.{Sized, read_message-write_action, new_action-Sized}

abbrev lim : Wire.Limits
lim = record {
  max_banner_bytes = 20;
  max_line_bytes = 40;
  max_fields = 4;
  max_message_bytes = 100;
  max_command_output_lines = 4;
  max_command_output_bytes = 100;
  max_action_fields = 4;
  max_action_line_bytes = 30;
  max_action_bytes = 90;
}

abbrev ping_name : Bytes
ping_name = b'P' ∷ b'i' ∷ b'n' ∷ b'g' ∷ []

abbrev note : Field
note = record { key = b'X' ∷ []; value = b'7' ∷ [] }

abbrev ping : Action
ping = record { name = ping_name; fields = note ∷ [] }

abbrev framer : Framer
framer = record { lim = lim; closed = false }

-- Every byte of "Action: Ping", "ActionID: r1" and "X: 7" is taken.
abbrev calm : World
calm = record {
  entry = none;
  written = 36;
  failed = none;
  interrupted = false;
  cause = Cause.canceled;
  closing = false;
}

-- The deadline of the write has passed behind three bytes.
abbrev cut : World
cut = record calm { written = 3; failed = some Fault.deadline; interrupted = true }

abbrev prefix : Bytes
prefix = b'a' ∷ b'-' ∷ []

abbrev id : Bytes
id = b'r' ∷ b'1' ∷ []

ping_made : new_action ping_name (note ∷ []) ≡ ok ping
unfolding new_action validate_name validate_fields is_reserved contains_any equal_fold
ping_made = refl

ping_complete : (write_action framer calm ping id).disposition ≡ Disposition.complete
unfolding write_action transmit append_message check_fields encode contains_any envelope_fields
ping_complete = refl

lim_Admits : Admits lim lim
lim_Admits = record {
  lines = omega arith;
  fields = omega arith;
  bytes = omega arith;
  output_lines = omega arith;
  output_bytes = omega arith;
}

id_sound : contains_any id is_break ≡ false
unfolding contains_any
id_sound = refl

write_action-Promise_example :
    Promise
      (write_action framer cut ping id).disposition
      framer
      (append_message [] (envelope_fields ping id) lim)
      (write_action framer cut ping id)
write_action-Promise_example = write_action-Promise framer cut ping id

abbrev peer : Reader
peer = record {
  lim = lim;
  source = (write_action framer calm ping id).sent ++ [];
  ending = Ending.closed;
  dirty = false;
  after_message = true;
  pad = 0;
  hooks = [];
}

read_message-write_action_example :
    read_message peer ≡ (after peer [], ok (envelope_fields ping id))
read_message-write_action_example =
    read_message-write_action framer calm ping id [] peer ping_complete lim_Admits refl refl

new_action-Sized_example : Sized (append_message [] (envelope_fields ping id) lim)
new_action-Sized_example = new_action-Sized ping_name (note ∷ []) ping id lim ping_made id_sound

list_kind : Kind.list ≢ Kind.unset
list_kind h = cc

request_kind : Kind.request ≢ Kind.unset
request_kind h = cc

parse_action_id-new_action_id_example :
    parse_action_id prefix (new_action_id prefix Kind.list 41) ≡ (true, Kind.list)
parse_action_id-new_action_id_example = parse_action_id-new_action_id prefix Kind.list 41 list_kind

new_action_id-injective_example : 12 ≡ 6 + 6
new_action_id-injective_example =
    new_action_id-injective prefix Kind.request Kind.request 12 (6 + 6) refl

abbrev machine_lim : Demux.Limits
machine_lim = record {
  max_pending = 2;
  max_subscriptions = 2;
  max_subscription_bytes = 100;
  max_lists = 2;
  max_list_bytes = 100;
  max_matcher_names = 4;
  max_matcher_bytes = 40;
  max_retirement = 4;
  retirement_lifetime = 10;
}

abbrev hangup : Bytes
hangup = b'H' ∷ b'a' ∷ b'n' ∷ b'g' ∷ []

hangup_set : fold_set machine_lim (hangup ∷ []) ≡ ok (some (fold hangup ∷ []))
unfolding fold_set fold_names
hangup_set = refl

contains-is_declared_example :
    contains (fold hangup ∷ []) (fold_ascii (b'h' ∷ b'A' ∷ b'n' ∷ b'G' ∷ []))
    ≡ is_declared (hangup ∷ []) (b'h' ∷ b'A' ∷ b'n' ∷ b'G' ∷ [])
contains-is_declared_example =
    contains-is_declared machine_lim (hangup ∷ []) (fold hangup ∷ [])
      (b'h' ∷ b'A' ∷ b'n' ∷ b'G' ∷ []) hangup_set

-- An event of a list of the session.
abbrev list_id : Bytes
list_id = new_action_id prefix Kind.list 7

abbrev complete_value : Bytes
complete_value = b'c' ∷ b'o' ∷ b'm' ∷ b'p' ∷ b'l' ∷ b'e' ∷ b't' ∷ b'e' ∷ []

abbrev list_fields : List Field
list_fields =
    record { key = action_id_key; value = list_id }
    ∷ record { key = event_list_key; value = complete_value }
    ∷ []

abbrev list_event : Message
list_event = record { fields = record { key = event_key; value = hangup } ∷ list_fields }

list_made : new_event hangup list_fields ≡ ok list_event
unfolding new_event validate_name validate_fields is_reserved contains_any equal_fold new_action_id
    format_uint digits
list_made = refl

list_ids : values_of list_fields action_id_key ≡ list_id ∷ []
unfolding values_of equal_fold
list_ids = refl

list_marks : values_of list_fields event_list_key ≡ complete_value ∷ []
unfolding values_of equal_fold
list_marks = refl

classify-new_event_example :
    IsOwnEvent Kind.list list_id hangup complete_value
      (wire_size list_event)
      5
      (classify prefix 5 list_event)
classify-new_event_example =
    classify-new_event prefix 5 7 Kind.list hangup complete_value list_fields list_event
      (λ e. absurd (cc)) list_made list_ids list_marks

abbrev success : Bytes
success = b'S' ∷ b'u' ∷ b'c' ∷ b'c' ∷ b'e' ∷ b's' ∷ b's' ∷ []

abbrev response : Message
response = record {
  fields =
      record { key = response_key; value = success }
      ∷ record { key = action_id_key; value = new_action_id prefix Kind.list 7 }
      ∷ [];
}

response_made : new_response response.fields ≡ ok response
unfolding new_response validate_fields is_reserved contains_any equal_fold new_action_id format_uint
    digits
response_made = refl

response_events : values response event_key ≡ []
unfolding values_of equal_fold
response_events = refl

response_ids : values response action_id_key ≡ new_action_id prefix Kind.list 7 ∷ []
unfolding values_of equal_fold
response_ids = refl

response_values : values response response_key ≡ success ∷ []
unfolding values_of equal_fold
response_values = refl

classify-new_action_id_example :
    IsOwnResponse Kind.list (new_action_id prefix Kind.list 7) success (classify prefix 5 response)
classify-new_action_id_example =
    classify-new_action_id prefix 5 7 Kind.list success response list_kind response_events
      response_ids response_values
