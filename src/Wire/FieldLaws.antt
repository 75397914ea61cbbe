-- ===== src/Wire/FieldLaws.antt =====
-- What `AppendMessage` has checked of a message, and how a line of it parses.
use ami.Base.{
  ℕ, ◌+◌, ◌≤◌, ◌≡◌, refl, inl, inr, false, List, [], ◌∷◌, ◌++◌, some, Bytes, length, length-append,
  Bool-cases, ok, arith,
}
use ami.Wire.Types.{Field, Limits}
use ami.Wire.Folding.{equal_fold}
use ami.Wire.Writer.{is_break, is_break_or_colon, is_nil, crlf, field_line, check_fields, encode}
use ami.Wire.Fields.{cut_colon, split_field, Msg, output_name, add, add_header, add_output}
use ami.Wire.LineLaws.{Free, Free-append, Free-imp, contains_any-Free, is_lf}

-- A field that fits one line, and that no byte of it can break.
pub record IsSendable (lim : Limits) (f : Field) : Type 0 where
  pub named : is_nil f.key ≡ false
  pub key_free : Free is_break_or_colon f.key
  pub value_free : Free is_break f.value
  pub fits : length f.key + 2 + length f.value ≤ lim.max_action_line_bytes

abbrev pub AllSendable : Limits → List Field → Type 0
AllSendable lim [] = Unit
AllSendable lim (f ∷ fs) = IsSendable lim f × AllSendable lim fs

-- The bytes of the lines, without the blank line.
abbrev pub lines_size : List Field → ℕ
lines_size [] = 0
lines_size (f ∷ fs) = length f.key + 2 + length f.value + 2 + lines_size fs

pub length-field_line : (f : Field) → length (field_line f) ≡ length f.key + 2 + length f.value
length-field_line f = omega (arith, length-append {0} f.key (b':' ∷ b' ' ∷ f.value))

pub length-encode : (fs : List Field) → length (encode fs) ≡ lines_size fs + 2
unfolding encode
length-encode [] = ground arith
length-encode (f ∷ fs) = omega (
  arith,
  length-append {0} (field_line f) (crlf ++ encode fs),
  length-field_line f,
  length-encode fs,
)

field_checks :
    (lim : Limits) (total : ℕ) (f : Field) (fs : List Field)
    → check_fields lim total (f ∷ fs) ≡ ok tt
    → IsSendable lim f
      × (total + (length f.key + 2 + length f.value + 2) ≤ lim.max_action_bytes)
      × (check_fields lim (total + (length f.key + 2 + length f.value + 2)) fs ≡ ok tt)
unfolding check_fields
field_checks lim total f fs h = (
  record {
    named = ground (arith, h);
    key_free = contains_any-Free f.key is_break_or_colon (ground (arith, h));
    value_free = contains_any-Free f.value is_break (ground (arith, h));
    fits = ground (arith, h);
  },
  ground (arith, h),
  ground (arith, h),
)

pub check_fields-AllSendable :
    (lim : Limits) (total : ℕ) (fs : List Field)
    → total ≤ lim.max_action_bytes
    → check_fields lim total fs ≡ ok tt
    → AllSendable lim fs × (total + lines_size fs ≤ lim.max_action_bytes)
check_fields-AllSendable lim total [] room h = (tt, omega arith)
check_fields-AllSendable lim total (f ∷ fs) room h =
    let (here, next, rest) = field_checks lim total f fs h in
    let (all, bound) =
      check_fields-AllSendable lim (total + (length f.key + 2 + length f.value + 2)) fs next rest in
    ((here, all), omega (arith, bound))

cut_colon-field_line :
    (key value : Bytes)
    → Free is_break_or_colon key
    → cut_colon (key ++ (b':' ∷ value)) ≡ some (key, value)
unfolding cut_colon
cut_colon-field_line [] value f = refl
cut_colon-field_line (c ∷ key) value f = ground (arith, f.0, cut_colon-field_line key value f.1)

pub split_field-field_line :
    (lim : Limits) (f : Field) → IsSendable lim f → split_field (field_line f) ≡ ok f
unfolding split_field
split_field-field_line lim f v =
    rw (cut_colon-field_line f.key (b' ' ∷ f.value) v.key_free) (keyed f.key f.value v.named)
  where
    keyed :
        (key value : Bytes)
        → is_nil key ≡ false
        → ami.Wire.Fields.field_of (some (key, b' ' ∷ value))
          ≡ ok (record { key = key; value = value })
    keyed [] value h = absurd (cc)
    keyed (c ∷ key) value h = refl

not_break-is_lf : (c : ℕ) → is_break c ≡ false → is_lf c ≡ false
not_break-is_lf c h = ground (arith, h)

not_colon-is_lf : (c : ℕ) → is_break_or_colon c ≡ false → is_lf c ≡ false
not_colon-is_lf c h = ground (arith, h)

pub field_line-Free : (lim : Limits) (f : Field) → IsSendable lim f → Free is_lf (field_line f)
field_line-Free lim f v =
    Free-append is_lf f.key (b':' ∷ b' ' ∷ f.value)
      (Free-imp is_break_or_colon is_lf f.key not_colon-is_lf v.key_free)
      (refl, (refl, Free-imp is_break is_lf f.value not_break-is_lf v.value_free))

-- The budgets of the reader, with this many fields and bytes still to come.
pub record HasRoom (lim : Limits) (m : Msg) (fs : List Field) : Type 0 where
  pub fields_room : m.n_fields + length fs ≤ lim.max_fields
  pub bytes_room : m.msg_bytes + lines_size fs + 2 ≤ lim.max_message_bytes
  pub lines_room : m.n_output + length fs ≤ lim.max_command_output_lines
  pub output_room : m.out_bytes + lines_size fs ≤ lim.max_command_output_bytes

add_header_lem :
    (lim : Limits) (m : Msg) (f : Field) (fs : List Field)
    → HasRoom lim m (f ∷ fs)
    → (m' : Msg) × (add_header lim m f (length (field_line f) + 2) ≡ ok m')
      × (m'.fields ≡ m.fields ++ (f ∷ []))
      × HasRoom lim m' fs
unfolding add_header
add_header_lem lim m f fs v = (
  record m {
    fields = m.fields ++ f ∷ [];
    n_fields = m.n_fields + 1;
    msg_bytes = m.msg_bytes + (length (field_line f) + 2);
  },
  ground (arith, v.fields_room, v.bytes_room, length-field_line f),
  refl,
  record {
    fields_room = omega (arith, v.fields_room);
    bytes_room = omega (arith, v.bytes_room, length-field_line f);
    lines_room = omega (arith, v.lines_room);
    output_room = omega (arith, v.output_room);
  },
)

add_output_lem :
    (lim : Limits) (m : Msg) (f : Field) (fs : List Field)
    → HasRoom lim m (f ∷ fs)
    → (m' : Msg) × (add_output lim m f (length (field_line f) + 2) ≡ ok m')
      × (m'.fields ≡ m.fields ++ (f ∷ []))
      × HasRoom lim m' fs
unfolding add_output
add_output_lem lim m f fs v = (
  record m {
    fields = m.fields ++ f ∷ [];
    n_output = m.n_output + 1;
    out_bytes = m.out_bytes + (length (field_line f) + 2);
  },
  ground (arith, v.lines_room, v.output_room, length-field_line f),
  refl,
  record {
    fields_room = omega (arith, v.fields_room);
    bytes_room = omega (arith, v.bytes_room);
    lines_room = omega (arith, v.lines_room);
    output_room = omega (arith, v.output_room, length-field_line f);
  },
)

pub add_lem :
    (lim : Limits) (m : Msg) (f : Field) (fs : List Field)
    → HasRoom lim m (f ∷ fs)
    → (m' : Msg) × (add lim m f (length (field_line f) + 2) ≡ ok m')
      × (m'.fields ≡ m.fields ++ (f ∷ []))
      × HasRoom lim m' fs
unfolding add
add_lem lim m f fs v = elim (Bool-cases (equal_fold f.key output_name)) [
  | inl e ↦ rw e (add_output_lem lim m f fs v)
  | inr e ↦ rw e (add_header_lem lim m f fs v)
]
