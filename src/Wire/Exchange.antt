-- ===== src/Wire/Exchange.antt =====
-- `AppendMessage` at one end of a stream and `ReadMessage` at the other.
use ami.Base.{
  ℕ, suc, ◌+◌, ◌≤◌, ◌<◌, ◌≡◌, refl, ap, ◌∙◌, true, false, List, [], ◌∷◌, ◌++◌, Bytes, length,
  length-append, Outcome, ok, arith,
}
use native.Mathlib.Numerals.{add-one}
use ami.Wire.Types.{Field, Limits, Error}
use ami.Wire.Writer.{is_nil, field_line, check_fields, encode, append_message}
use ami.Wire.Fields.{split_field, Msg, no_fields, add}
use ami.Wire.Lines.{Reader, Hook, frame_start, read_line}
use ami.Wire.Reader.{read_start, read_body, is_legacy, read_message}
use ami.Wire.FieldLaws.{
  IsSendable, AllSendable, lines_size, length-field_line, length-encode, check_fields-AllSendable,
  split_field-field_line, field_line-Free, HasRoom, add_lem,
}
use ami.Wire.RoundTrip.{crlf_line, field_line-named, encode_tail, read_body-encode}

-- The inbound limits take whatever the outbound limits let pass.
pub record Admits (inbound outbound : Limits) : Type 0 where
  pub lines : outbound.max_action_line_bytes ≤ inbound.max_line_bytes
  pub fields : outbound.max_action_fields ≤ inbound.max_fields
  pub bytes : outbound.max_action_bytes ≤ inbound.max_message_bytes
  pub output_lines : outbound.max_action_fields ≤ inbound.max_command_output_lines
  pub output_bytes : outbound.max_action_bytes ≤ inbound.max_command_output_bytes

-- What a written message satisfies.
pub record IsWritten (out : Limits) (fs : List Field) (bytes : Bytes) : Type 0 where
  pub encoded : bytes ≡ encode fs
  pub few : length fs ≤ out.max_action_fields
  pub sendable : AllSendable out fs
  pub small : lines_size fs + 2 ≤ out.max_action_bytes

append_checks :
    (out : Limits) (f : Field) (fs : List Field) (bytes : Bytes)
    → append_message [] (f ∷ fs) out ≡ ok bytes
    → (bytes ≡ encode (f ∷ fs))
      × (length (f ∷ fs) ≤ out.max_action_fields)
      × (check_fields out 2 (f ∷ fs) ≡ ok tt)
unfolding append_message
append_checks out f fs bytes h = (ground (arith, h), ground (arith, h), ground (arith, h))

-- The checks hold of a first field only within the byte limit, so that two bytes are within it.
two_fit :
    (out : Limits) (f : Field) (fs : List Field)
    → check_fields out 2 (f ∷ fs) ≡ ok tt
    → 2 ≤ out.max_action_bytes
unfolding check_fields
two_fit out f fs h = ground (arith, h)

pub append_message-IsWritten :
    (out : Limits) (f : Field) (fs : List Field) (bytes : Bytes)
    → append_message [] (f ∷ fs) out ≡ ok bytes
    → IsWritten out (f ∷ fs) bytes
append_message-IsWritten out f fs bytes h =
    let (encoded, few, checked) = append_checks out f fs bytes h in
    let (all, bound) = check_fields-AllSendable out 2 (f ∷ fs) (two_fit out f fs checked) checked in
    record { encoded = encoded; few = few; sendable = all; small = omega (arith, bound) }

start_step :
    (fuel raw : ℕ) (r r1 : Reader) (s : Bytes)
    → read_line r r.lim.max_line_bytes Error.line_too_long ≡ (r1, ok (s, raw))
    → is_nil s ≡ false
    → read_start (suc fuel) r ≡ (record r1 { pad = 0 }, ok (s, raw))
unfolding read_start
start_step fuel raw r r1 [] h n = absurd (cc)
start_step fuel raw r r1 (c ∷ s) h n = rw (h, read_start) refl

-- The state in which a read of one message leaves a clean reader.
abbrev pub after : Reader → Bytes → Reader
after r rest = record r {
  source = rest;
  dirty = false;
  after_message = true;
  pad = 0;
  hooks = r.hooks ++ Hook.frame_started ∷ [];
}

-- The reader inside the frame, behind its first line.
abbrev pub inside : Reader → Bytes → Reader
inside r rest = record r {
  source = rest;
  dirty = true;
  pad = 0;
  hooks = r.hooks ++ Hook.frame_started ∷ [];
}

frame_start-clean :
    (r : Reader) (rest : Bytes)
    → r.dirty ≡ false
    → ◌≡◌ {A = Reader} (record (frame_start r) { source = rest; pad = 0 }) (inside r rest)
unfolding frame_start
frame_start-clean r rest d = rw d refl

pub read_start-encode :
    (fuel : ℕ) (out : Limits) (r : Reader) (f : Field) (fs : List Field) (rest : Bytes)
    → IsSendable out f
    → out.max_action_line_bytes ≤ r.lim.max_line_bytes
    → r.dirty ≡ false
    → r.source ≡ encode (f ∷ fs) ++ rest
    → read_start (suc fuel) r
      ≡ (inside r (encode fs ++ rest), ok (field_line f, length (field_line f) + 2))
read_start-encode fuel out r f fs rest v wide d h =
    start_step fuel (length (field_line f) + 2) r
      (record (frame_start r) { source = encode fs ++ rest }) (field_line f)
      (crlf_line r r.lim.max_line_bytes Error.line_too_long (field_line f) (encode fs ++ rest)
        (h ∙ encode_tail f fs rest) (field_line-Free out f v)
        (omega (arith, length-field_line f, v.fits)))
      (field_line-named f v.named)
    ∙ ap (λ (s : Reader). (s, ok (field_line f, length (field_line f) + 2)))
        (frame_start-clean r (encode fs ++ rest) d)

few_lines : (fs : List Field) → length fs ≤ lines_size fs
few_lines [] = omega arith
few_lines (f ∷ fs) = omega (arith, few_lines fs)

pub enough_fuel :
    (r : Reader) (fs : List Field) (rest : Bytes)
    → r.source ≡ encode fs ++ rest
    → length fs < length r.source + 1
enough_fuel r fs rest h =
    omega (arith, few_lines fs, length-encode fs, ap length h, length-append {0} (encode fs) rest)

message_steps :
    (r r1 : Reader) (f : Field) (raw : ℕ) (s : Bytes) (m : Msg)
    (result : Reader × Outcome Error (List Field))
    → read_start (length r.source + 1) r ≡ (r1, ok (s, raw))
    → split_field s ≡ ok f
    → add r1.lim no_fields f raw ≡ ok m
    → is_legacy f ≡ false
    → read_body (length r.source + 1) m r1 ≡ result
    → read_message r ≡ result
unfolding read_message
message_steps r r1 f raw s m result h p a l b = rw h (rw p (rw a (rw l b)))

-- The rest of a message behind its first line, read at the reader `r₀`.
pub message_from :
    (out : Limits) (f : Field) (fs : List Field) (rest : Bytes) (r r₀ : Reader)
    → AllSendable out (f ∷ fs)
    → HasRoom r₀.lim no_fields (f ∷ fs)
    → is_legacy f ≡ false
    → out.max_action_line_bytes ≤ r₀.lim.max_line_bytes
    → length fs < length r.source + 1
    → read_start (length r.source + 1) r
      ≡ (inside r₀ (encode fs ++ rest), ok (field_line f, length (field_line f) + 2))
    → read_message r ≡ (after r₀ rest, ok (f ∷ fs))
message_from out f fs rest r r₀ v room l wide few start =
    let (m, added, grown, room') = add_lem r₀.lim no_fields f fs room in
    message_steps r (inside r₀ (encode fs ++ rest)) f (length (field_line f) + 2) (field_line f) m
      (after r₀ rest, ok (f ∷ fs)) start (split_field-field_line out f v.0) added l
      (read_body-encode (length r.source + 1) out rest fs (inside r₀ (encode fs ++ rest)) m few refl
          refl v.1 wide room'
        ∙ ap (λ (l : List Field). (after r₀ rest, ok l)) (ap (λ (l : List Field). l ++ fs) grown))

-- The reader has room for what the writer lets pass.
pub Admits-HasRoom :
    (out lim : Limits) (fs : List Field) (bytes : Bytes)
    → Admits lim out
    → IsWritten out fs bytes
    → HasRoom lim no_fields fs
Admits-HasRoom out lim fs bytes a v = record {
  fields_room = omega (arith, a.fields, v.few);
  bytes_room = omega (arith, a.bytes, v.small);
  lines_room = omega (arith, a.output_lines, v.few);
  output_room = omega (arith, a.output_bytes, v.small);
}

-- `AppendMessage` has written the message `f ∷ fs` in front of `rest`, the limits of the reader take
-- what those of the writer let pass, no byte of a frame is pending, and the first field is not
-- "Response: Follows". Then `ReadMessage` returns exactly those fields, in their order, and leaves the
-- reader clean, behind the message and before `rest`, with one call of the frame-start hook.
pub read_message-append_message :
    (out : Limits) (f : Field) (fs : List Field) (bytes rest : Bytes) (r : Reader)
    → append_message [] (f ∷ fs) out ≡ ok bytes
    → is_legacy f ≡ false
    → Admits r.lim out
    → r.dirty ≡ false
    → r.source ≡ bytes ++ rest
    → read_message r ≡ (after r rest, ok (f ∷ fs))
read_message-append_message out f fs bytes rest r w l a d h =
    let v = append_message-IsWritten out f fs bytes w in
    let source : r.source ≡ encode (f ∷ fs) ++ rest = h ∙ ap (λ s. s ++ rest) v.encoded in
    message_from out f fs rest r r v.sendable (Admits-HasRoom out r.lim (f ∷ fs) bytes a v) l
      a.lines (omega (arith, enough_fuel r (f ∷ fs) rest source))
      (rw (add-one (length r.source))
        (read_start-encode (length r.source) out r f fs rest v.sendable.0 a.lines d source))
