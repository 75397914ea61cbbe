-- ===== src/Client/Framer/Delivery.antt =====
-- An action that is constructed, written and read.
use ami.Base.{
  ℕ, ◌+◌, ◌≡◌, refl, subst, inl, inr, Bool, true, false, List, [], ◌∷◌, ◌++◌, Bytes, length,
  Bool-cases, Outcome, ok, err, arith,
}
use ami.Wire.Types.{Field}
use ami.Wire.Types as Wire
use ami.Wire.Folding.{equal_fold}
use ami.Wire.Writer.{
  contains_any, is_break, is_break_or_colon, is_nil, check_fields, append_message,
}
use ami.Wire.Lines.{Reader}
use ami.Wire.Reader.{read_message, is_legacy}
use ami.Wire.Exchange.{Admits, after, read_message-append_message}
use ami.Client.Message.{
  Action, validate_name, validate_fields, new_action, action_key, action_id_key,
}
use ami.Client.Framer.{Framer, World, Disposition, envelope_fields, write_action}
use ami.Client.Framer.Writes.{Promise, write_action-Promise}

action_not_legacy : (name : Bytes) → is_legacy (record { key = action_key; value = name }) ≡ false
unfolding equal_fold
action_not_legacy name = refl

-- A write of an action is complete, and what the transport took stands in front of `rest` at a
-- reader whose limits take what those of the framer let pass and that is in no frame. Then
-- `ReadMessage` returns the Action field, the ActionID field unless the ActionID is empty, and the
-- fields of the action, in this order and no others, and leaves the reader clean before `rest`.
pub read_message-write_action :
    (f : Framer) (w : World) (a : Action) (id rest : Bytes) (r : Reader)
    → (write_action f w a id).disposition ≡ Disposition.complete
    → Admits r.lim f.lim
    → r.dirty ≡ false
    → r.source ≡ (write_action f w a id).sent ++ rest
    → read_message r ≡ (after r rest, ok (envelope_fields a id))
unfolding envelope_fields
read_message-write_action f w a id rest r done fits d h =
    read_message-append_message f.lim (record { key = action_key; value = a.name }) _
      (write_action f w a id).sent rest r promise.0 (action_not_legacy a.name) fits d h
  where
    promise :
        Promise Disposition.complete f
          (append_message [] (envelope_fields a id) f.lim)
          (write_action f w a id)
    promise =
        subst
          (λ (c : Disposition).
            Promise c f (append_message [] (envelope_fields a id) f.lim) (write_action f w a id))
          done (write_action-Promise f w a id)

-- The fields that no limit speaks of.
record IsShaped (f : Field) : Type 0 where
  named : is_nil f.key ≡ false
  key_sound : contains_any f.key is_break_or_colon ≡ false
  value_sound : contains_any f.value is_break ≡ false

abbrev AllShaped : List Field → Type 0
AllShaped [] = Unit
AllShaped (f ∷ fs) = IsShaped f × AllShaped fs

-- A limit of the writer.
abbrev pub is_size : Wire.Error → Bool
is_size Wire.Error.too_many_action_fields = true
is_size Wire.Error.action_line_too_long = true
is_size Wire.Error.action_too_large = true
is_size e = false

-- A success, or a limit of the writer.
abbrev pub Sized : {A : Type 0} → Outcome Wire.Error A → Type 0
Sized (ok a) = Unit
Sized (err e) = is_size e ≡ true

validate_fields-AllShaped :
    (reserved : List Bytes) (i : ℕ) (fs : List Field)
    → validate_fields reserved i fs ≡ ok tt
    → AllShaped fs
unfolding validate_fields
validate_fields-AllShaped reserved i [] h = tt
validate_fields-AllShaped reserved i (f ∷ fs) h = (
  record {
    named = ground (arith, h);
    key_sound = ground (arith, h);
    value_sound = ground (arith, h);
  },
  validate_fields-AllShaped reserved (i + 1) fs (ground (arith, h)),
)

new_action-AllShaped :
    (name : Bytes) (fs : List Field) (a : Action)
    → new_action name fs ≡ ok a
    → AllShaped a.fields × (contains_any a.name is_break ≡ false) × (is_nil a.name ≡ false)
unfolding new_action validate_name
new_action-AllShaped name fs a h = rw (fields_same) (
  validate_fields-AllShaped (action_key ∷ action_id_key ∷ []) 0 fs (ground (arith, h)),
  rw (name_same) (ground (arith, h)),
  rw (name_same) (ground (arith, h)),
)
  where
    fields_same : a.fields ≡ fs
    fields_same = ground (arith, h)

    name_same : a.name ≡ name
    name_same = ground (arith, h)

check_fields-Sized :
    (lim : Wire.Limits) (total : ℕ) (fs : List Field)
    → AllShaped fs
    → Sized (check_fields lim total fs)
unfolding check_fields
check_fields-Sized lim total [] v = tt
check_fields-Sized lim total (f ∷ fs) v = ground (
  arith,
  v.0.named,
  v.0.key_sound,
  v.0.value_sound,
  check_fields-Sized lim (total + (length f.key + 2 + length f.value + 2)) fs v.1,
)

append_message-Sized :
    (lim : Wire.Limits) (f : Field) (fs : List Field)
    → AllShaped (f ∷ fs)
    → Sized (append_message [] (f ∷ fs) lim)
unfolding append_message
append_message-Sized lim f fs v = ground (arith, check_fields-Sized lim 2 (f ∷ fs) v)

action_field-IsShaped :
    (name : Bytes)
    → contains_any name is_break ≡ false
    → IsShaped (record { key = action_key; value = name })
unfolding contains_any
action_field-IsShaped name h = record { named = refl; key_sound = refl; value_sound = h }

id_field-IsShaped :
    (id : Bytes)
    → contains_any id is_break ≡ false
    → IsShaped (record { key = action_id_key; value = id })
unfolding contains_any
id_field-IsShaped id h = record { named = refl; key_sound = refl; value_sound = h }

-- An action that `NewAction` has accepted, with any ActionID free of NUL, CR and LF, passes
-- `AppendMessage` but for the limits: it is encoded, or it has too many fields, too long a line or
-- too many bytes. No key, no value and no empty message is refused.
pub new_action-Sized :
    (name : Bytes) (fs : List Field) (a : Action) (id : Bytes) (lim : Wire.Limits)
    → new_action name fs ≡ ok a
    → contains_any id is_break ≡ false
    → Sized (append_message [] (envelope_fields a id) lim)
unfolding envelope_fields
new_action-Sized name fs a id lim h s =
    let (fields, name_sound, named) = new_action-AllShaped name fs a h in
    elim (Bool-cases (is_nil id)) [
      | inl e ↦
          rw e
            (append_message-Sized lim _ a.fields (action_field-IsShaped a.name name_sound, fields))
      | inr e ↦ rw e (
          append_message-Sized lim _ _
            (action_field-IsShaped a.name name_sound, (id_field-IsShaped id s, fields)))
    ]
