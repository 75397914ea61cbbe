-- ===== src/Client/Classify/Envelopes.antt =====
-- How constructed and received messages are classified.
use ami.Base.{
  ℕ, ◌+◌, ◌≡◌, ◌≢◌, refl, ap, sym, ◌∙◌, inl, inr, Bool, true, false, ◌||◌, List, [], ◌∷◌, Option,
  some, none, Bytes, bytes_eq, Bool-cases, ok, arith,
}
use ami.Demux.Types.{Kind, Class, Mark, Envelope}
use ami.Wire.Types.{Field}
use ami.Wire.Folding.{equal_fold}
use ami.Wire.Writer.{is_nil}
use ami.Client.Message.{
  Message, validate_name, validate_fields, is_reserved, values, values_of, get, lookup_field,
  new_event, new_response, event_key, event_list_key, action_id_key, response_key,
}
use ami.Client.Classify.{
  classify, event_envelope, response_envelope, with_id, blank_envelope, all_same, equal_fold_ascii,
  fold_ascii, parse_mark, new_action_id, response_success, wire_size, success_word, follows_word,
  complete_word, cancelled_word, start_word,
}
use ami.Client.Classify.Ids.{parse_action_id-new_action_id}

-- No field that has passed has the reserved key.
unreserved :
    (key : Bytes) (i : ℕ) (fs : List Field)
    → validate_fields (key ∷ []) i fs ≡ ok tt
    → values_of fs key ≡ []
unfolding validate_fields is_reserved values_of
unreserved key i [] h = refl
unreserved key i (f ∷ fs) h = ground (arith, h, unreserved key (i + 1) fs)

named : (name : Bytes) → validate_name name ≡ ok tt → is_nil name ≡ false
unfolding validate_name
named name h = ground (arith, h)

new_event_lem :
    (name : Bytes) (fs : List Field) (e : Message)
    → new_event name fs ≡ ok e
    → (e ≡ record { fields = record { key = event_key; value = name } ∷ fs })
      × (validate_name name ≡ ok tt)
      × (validate_fields (event_key ∷ []) 0 fs ≡ ok tt)
unfolding new_event
new_event_lem name fs e h = (ground (arith, h), ground (arith, h), ground (arith, h))

event_values :
    (name : Bytes) (fs : List Field)
    → validate_fields (event_key ∷ []) 0 fs ≡ ok tt
    → values_of (record { key = event_key; value = name } ∷ fs) event_key ≡ name ∷ []
unfolding values_of equal_fold
event_values name fs h = ap (λ (vs : List Bytes). name ∷ vs) (unreserved event_key 0 fs h)

event_classed :
    (m : Message) (name : Bytes) (env : Envelope)
    → is_nil name ≡ false
    → all_same equal_fold_ascii (values m event_list_key) ≡ true
    → event_envelope m name [] env ≡ record env {
      class = Class.event;
      name = fold_ascii name;
      mark = parse_mark (get m event_list_key);
    }
unfolding all_same
event_classed m name env n l = rw n (rw l refl)

response_not_event :
    (m : Message) (vs : List Bytes) (prefix : Bytes) (ids : List Bytes) (now : ℕ)
    → (response_envelope m vs (with_id prefix ids (blank_envelope (wire_size m) now))).class
      ≢ Class.event
response_not_event m [] prefix [] now e = ground (arith, e)
response_not_event m [] prefix (id ∷ ids) now e = ground (arith, e)
response_not_event m (v ∷ vs) prefix [] now e = ground (arith, e)
response_not_event m (v ∷ vs) prefix (id ∷ ids) now e = ground (arith, e)

no_event :
    (prefix : Bytes) (now : ℕ) (m : Message)
    → values m event_key ≡ []
    → (classify prefix now m).class ≢ Class.event
unfolding classify
no_event prefix now m h e = elim (Bool-cases (all_same bytes_eq (values m action_id_key))) [
  | inl same ↦
      response_not_event m (values m response_key) prefix (values m action_id_key) now
        (sym (rw same (rw h refl)) ∙ e)
  | inr other ↦ absurd (ground (arith, e, other))
]

-- A response that `NewResponse` has accepted never classifies as an event, whatever fields it has.
pub classify-new_response :
    (prefix : Bytes) (now : ℕ) (fs : List Field) (m : Message)
    → new_response fs ≡ ok m
    → (classify prefix now m).class ≢ Class.event
unfolding new_response
classify-new_response prefix now fs m h =
    no_event prefix now m (rw (same) (unreserved event_key 0 fs checked))
  where
    checked : validate_fields (event_key ∷ []) 0 fs ≡ ok tt
    checked = ground (arith, h)

    same : m ≡ record { fields = fs }
    same = ground (arith, h)

abbrev pub first : List Bytes → Option Bytes
first [] = none
first (v ∷ vs) = some v

-- `Lookup` finds the first of the values that `Values` lists, and finds nothing exactly when it lists
-- none.
pub lookup_field-values_of :
    (fs : List Field) (key : Bytes) → lookup_field fs key ≡ first (values_of fs key)
unfolding lookup_field values_of
lookup_field-values_of [] key = refl
lookup_field-values_of (f ∷ fs) key = ground (arith, lookup_field-values_of fs key)

get_value : (m : Message) (key v : Bytes) → values m key ≡ v ∷ [] → get m key ≡ v
unfolding get
get_value m key v h = ground (arith, lookup_field-values_of m.fields key, h)

-- What the machine needs to know of a response to an action of the session.
pub record IsOwnResponse (kind : Kind) (id v : Bytes) (env : Envelope) : Type 0 where
  pub class_lem : env.class ≡ Class.response
  pub own_lem : env.own ≡ true
  pub kind_lem : env.kind ≡ kind
  pub id_lem : env.action_id ≡ id
  pub success_lem :
      env.success ≡ (equal_fold_ascii v success_word || equal_fold_ascii v follows_word)

-- A message with no Event, one Response and, as its one ActionID, an ActionID that the session has
-- issued for a request or a list classifies as a response to that very ActionID, the session's own
-- and of that kind, and as a success exactly when the Response is "Success" or "Follows" under ASCII
-- case folding.
pub classify-new_action_id :
    (prefix : Bytes) (now seq : ℕ) (kind : Kind) (v : Bytes) (m : Message)
    → kind ≢ Kind.unset
    → values m event_key ≡ []
    → values m action_id_key ≡ new_action_id prefix kind seq ∷ []
    → values m response_key ≡ v ∷ []
    → IsOwnResponse kind (new_action_id prefix kind seq) v (classify prefix now m)
unfolding classify all_same response_success
classify-new_action_id prefix now seq kind v m k no_events ids one =
    let parsed = parse_action_id-new_action_id prefix kind seq k in
    let got = get_value m response_key v one in
    record {
      class_lem = rw ids (rw no_events (rw one refl));
      own_lem = rw ids (rw no_events (rw one (ap (λ (p : Bool × Kind). p.0) parsed)));
      kind_lem = rw ids (rw no_events (rw one (ap (λ (p : Bool × Kind). p.1) parsed)));
      id_lem = rw ids (rw no_events (rw one refl));
      success_lem = rw ids (rw no_events (rw one (rw got refl)));
    }

-- What a mark says of the value of EventList, by the words that Asterisk sends.
abbrev pub Marks : Bytes → Mark → Type 0
Marks v Mark.complete = equal_fold_ascii v complete_word ≡ true
Marks v Mark.cancelled = equal_fold_ascii v cancelled_word ≡ true
Marks v Mark.start = equal_fold_ascii v start_word ≡ true
Marks v Mark.none =
    (equal_fold_ascii v complete_word ≡ false)
    × (equal_fold_ascii v cancelled_word ≡ false)
    × (equal_fold_ascii v start_word ≡ false)

parse_mark-Marks : (v : Bytes) → Marks v (parse_mark v)
unfolding parse_mark equal_fold_ascii
parse_mark-Marks [] = (refl, refl, refl)
parse_mark-Marks (c ∷ v) = elim (Bool-cases (equal_fold_ascii (c ∷ v) complete_word)) [
  | inl e ↦ rw e e
  | inr e ↦ elim (Bool-cases (equal_fold_ascii (c ∷ v) cancelled_word)) [
    | inl f ↦ rw e (rw f f)
    | inr f ↦ elim (Bool-cases (equal_fold_ascii (c ∷ v) start_word)) [
      | inl g ↦ rw e (rw f (rw g g))
      | inr g ↦ rw e (rw f (rw g (e, f, g)))
    ]
  ]
]

-- What the machine needs to know of an event for a list of the session.
pub record IsOwnEvent (kind : Kind) (id name v : Bytes) (size now : ℕ) (env : Envelope)
    : Type 0 where
  pub class_lem : env.class ≡ Class.event
  pub name_lem : env.name ≡ fold_ascii name
  pub own_lem : env.own ≡ true
  pub kind_lem : env.kind ≡ kind
  pub id_lem : env.action_id ≡ id
  pub mark_lem : Marks v env.mark
  pub size_lem : env.size ≡ size
  pub now_lem : env.now ≡ now

event_envelope-IsOwnEvent :
    (prefix : Bytes) (now seq : ℕ) (kind : Kind) (name v : Bytes) (m : Message)
    → kind ≢ Kind.unset
    → is_nil name ≡ false
    → values m event_key ≡ name ∷ []
    → values m action_id_key ≡ new_action_id prefix kind seq ∷ []
    → values m event_list_key ≡ v ∷ []
    → IsOwnEvent kind
        (new_action_id prefix kind seq)
        name
        v
        (wire_size m)
        now
        (classify prefix now m)
unfolding classify all_same
event_envelope-IsOwnEvent prefix now seq kind name v m k n events ids lists =
    let parsed = parse_action_id-new_action_id prefix kind seq k in
    let got = get_value m event_list_key v lists in
    let whole =
      event_classed m name
        (with_id prefix (new_action_id prefix kind seq ∷ []) (blank_envelope (wire_size m) now)) n
        (rw lists refl) in
    rw ids (
      rw events (
        rw whole (record {
          class_lem = refl;
          name_lem = refl;
          own_lem = ap (λ (p : Bool × Kind). p.0) parsed;
          kind_lem = ap (λ (p : Bool × Kind). p.1) parsed;
          id_lem = refl;
          mark_lem = rw got (parse_mark-Marks v);
          size_lem = refl;
          now_lem = refl;
        })))

-- An event that `NewEvent` has accepted, whose fields carry one ActionID, which the session has issued
-- for a request or a list, and one EventList. It classifies as an event under its name in lower case,
-- the session's own, of that kind and with that ActionID, at its size, and its mark is the one whose
-- word the EventList is under ASCII case folding, or none when it is none of the three words.
pub classify-new_event :
    (prefix : Bytes) (now seq : ℕ) (kind : Kind) (name v : Bytes) (fs : List Field) (e : Message)
    → kind ≢ Kind.unset
    → new_event name fs ≡ ok e
    → values_of fs action_id_key ≡ new_action_id prefix kind seq ∷ []
    → values_of fs event_list_key ≡ v ∷ []
    → IsOwnEvent kind
        (new_action_id prefix kind seq)
        name
        v
        (wire_size e)
        now
        (classify prefix now e)
unfolding values_of equal_fold
classify-new_event prefix now seq kind name v fs e k h ids lists =
    let (same, name_ok, fields_ok) = new_event_lem name fs e h in
    event_envelope-IsOwnEvent prefix now seq kind name v e k (named name name_ok)
      (ap (λ (m : Message). values m event_key) same ∙ event_values name fs fields_ok)
      (ap (λ (m : Message). values m action_id_key) same ∙ ids)
      (ap (λ (m : Message). values m event_list_key) same ∙ lists)
