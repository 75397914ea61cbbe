-- ===== src/Wire/Fields.antt =====
-- internal/wire/reader.go: `splitField` and the budgets of a message.
use ami.Base.{
  ℕ, ◌+◌, not, List, [], ◌∷◌, ◌++◌, Option, some, none, Bytes, nat_eq, ltb, if◌then◌else◌, Outcome,
  ok, err, guard, ◌>>=◌, ◌>>◌,
}
use ami.Wire.Types.{Field, Limits, Error}
use ami.Wire.Folding.{equal_fold}

-- The text around the first colon.
unfoldable pub cut_colon : Bytes → Option (Bytes × Bytes)
cut_colon [] = none
cut_colon (c ∷ s) =
    let rest = cut_colon s in
    if nat_eq c b':'
    then some ([], s)
    else elim rest [ none ↦ none | some (key, value) ↦ some (c ∷ key, value) ]

abbrev pub skip_space : Bytes → Bytes
skip_space [] = []
skip_space (c ∷ s) = if nat_eq c b' ' then s else c ∷ s

-- A line with no colon is not a field, and so is one with nothing in front of its colon.
abbrev pub field_of : Option (Bytes × Bytes) → Outcome Error Field
field_of none = err Error.malformed_line
field_of (some ([], value)) = err Error.malformed_line
field_of (some (c ∷ key, value)) = ok (record { key = c ∷ key; value = skip_space value })

-- `splitField`
unfoldable pub split_field : Bytes → Outcome Error Field
split_field line = field_of (cut_colon line)

-- `charge`: the new total.
abbrev pub charge : ℕ → ℕ → ℕ → Error → Outcome Error ℕ
charge total raw max over = if ltb max (total + raw) then err over else ok (total + raw)

-- Go's `msg`, whose limits are an argument here.
pub record Msg : Type 0 where
  pub fields : List Field
  pub n_fields : ℕ
  pub msg_bytes : ℕ
  pub n_output : ℕ
  pub out_bytes : ℕ

abbrev pub no_fields : Msg
no_fields = record { fields = []; n_fields = 0; msg_bytes = 0; n_output = 0; out_bytes = 0 }

abbrev pub output_name : Bytes
output_name = b'O' ∷ b'u' ∷ b't' ∷ b'p' ∷ b'u' ∷ b't' ∷ []

-- `addHeader`
unfoldable pub add_header : Limits → Msg → Field → ℕ → Outcome Error Msg
add_header lim m f raw = do
  guard (not (ltb lim.max_fields (m.n_fields + 1))) Error.too_many_fields
  bytes ← charge m.msg_bytes raw lim.max_message_bytes Error.message_too_large
  ok (record m { fields = m.fields ++ f ∷ []; n_fields = m.n_fields + 1; msg_bytes = bytes })

-- `addOutput`
unfoldable pub add_output : Limits → Msg → Field → ℕ → Outcome Error Msg
add_output lim m f raw = do
  guard (not (ltb lim.max_command_output_lines (m.n_output + 1))) Error.too_many_output_lines
  bytes ← charge m.out_bytes raw lim.max_command_output_bytes Error.output_too_large
  ok (record m { fields = m.fields ++ f ∷ []; n_output = m.n_output + 1; out_bytes = bytes })

-- `add`
unfoldable pub add : Limits → Msg → Field → ℕ → Outcome Error Msg
add lim m f raw =
    if equal_fold f.key output_name then add_output lim m f raw else add_header lim m f raw
