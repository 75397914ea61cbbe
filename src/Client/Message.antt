-- ===== src/Client/Message.antt =====
-- message.go, action.go and event.go.
use ami.Base.{
  ℕ, ◌+◌, Bool, false, not, ◌||◌, List, [], ◌∷◌, Option, some, none, Bytes, if◌then◌else◌, Outcome,
  ok, guard, ◌>>◌,
}
use ami.Wire.Types.{Field}
use ami.Wire.Folding.{equal_fold}
use ami.Wire.Writer.{contains_any, is_break, is_break_or_colon, is_nil}

pub record Message : Type 0 where
  pub fields : List Field

-- `newMessage`: the copy is the same value.
abbrev pub new_message : List Field → Message
new_message fields = record { fields = fields }

-- `messageFromWire`: a field of the wire is a field of the package.
abbrev pub message_from_wire : List Field → Message
message_from_wire fields = record { fields = fields }

-- What is wrong with a name or with a field, and the field's index.
pub data Invalid : Type 0 where
  empty_name bad_name : Invalid
  empty_key bad_key reserved_key bad_value : ℕ → Invalid

-- `validateName`
unfoldable pub validate_name : Bytes → Outcome Invalid (Unit {0})
validate_name name = do
  guard (not (is_nil name)) Invalid.empty_name
  guard (not (contains_any name is_break)) Invalid.bad_name

-- The inner loop of `validateFields`; the reserved keys are ASCII names.
unfoldable pub is_reserved : List Bytes → Bytes → Bool
is_reserved [] key = false
is_reserved (r ∷ reserved) key = equal_fold key r || is_reserved reserved key

-- `validateFields`, from the field with this index on.
unfoldable pub validate_fields : List Bytes → ℕ → List Field → Outcome Invalid (Unit {0})
validate_fields reserved i [] = ok tt
validate_fields reserved i (f ∷ fields) =
    let rest = validate_fields reserved (i + 1) fields in
    do
      guard (not (is_nil f.key)) (Invalid.empty_key i)
      guard (not (contains_any f.key is_break_or_colon)) (Invalid.bad_key i)
      guard (not (is_reserved reserved f.key)) (Invalid.reserved_key i)
      guard (not (contains_any f.value is_break)) (Invalid.bad_value i)
      rest

-- The loop of `Lookup`, for an ASCII key.
unfoldable pub lookup_field : List Field → Bytes → Option Bytes
lookup_field [] key = none
lookup_field (f ∷ fields) key =
    let rest = lookup_field fields key in if equal_fold f.key key then some f.value else rest

-- `Lookup`
abbrev pub lookup_key : Message → Bytes → Option Bytes
lookup_key m key = lookup_field m.fields key

-- `Get`
unfoldable pub get : Message → Bytes → Bytes
get m key = elim (lookup_key m key) [ none ↦ [] | some v ↦ v ]

-- The loop of `Values`.
unfoldable pub values_of : List Field → Bytes → List Bytes
values_of [] key = []
values_of (f ∷ fields) key =
    let rest = values_of fields key in if equal_fold f.key key then f.value ∷ rest else rest

-- `Values`
abbrev pub values : Message → Bytes → List Bytes
values m key = values_of m.fields key

abbrev pub action_key : Bytes
action_key = b'A' ∷ b'c' ∷ b't' ∷ b'i' ∷ b'o' ∷ b'n' ∷ []

abbrev pub event_key : Bytes
event_key = b'E' ∷ b'v' ∷ b'e' ∷ b'n' ∷ b't' ∷ []

abbrev pub event_list_key : Bytes
event_list_key = b'E' ∷ b'v' ∷ b'e' ∷ b'n' ∷ b't' ∷ b'L' ∷ b'i' ∷ b's' ∷ b't' ∷ []

abbrev pub action_id_key : Bytes
action_id_key = b'A' ∷ b'c' ∷ b't' ∷ b'i' ∷ b'o' ∷ b'n' ∷ b'I' ∷ b'D' ∷ []

abbrev pub response_key : Bytes
response_key = b'R' ∷ b'e' ∷ b's' ∷ b'p' ∷ b'o' ∷ b'n' ∷ b's' ∷ b'e' ∷ []

pub record Action : Type 0 where
  pub name : Bytes
  pub fields : List Field

-- `NewAction`
unfoldable pub new_action : Bytes → List Field → Outcome Invalid Action
new_action name fields = do
  validate_name name
  validate_fields (action_key ∷ action_id_key ∷ []) 0 fields
  ok (record { name = name; fields = fields })

-- `NewEvent`
unfoldable pub new_event : Bytes → List Field → Outcome Invalid Message
new_event name fields = do
  validate_name name
  validate_fields (event_key ∷ []) 0 fields
  ok (record { fields = record { key = event_key; value = name } ∷ fields })

-- `NewResponse`
unfoldable pub new_response : List Field → Outcome Invalid Message
new_response fields = do validate_fields (event_key ∷ []) 0 fields; ok (new_message fields)

-- `Event.Name`
abbrev pub event_name : Message → Bytes
event_name m = get m event_key
