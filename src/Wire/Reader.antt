-- ===== src/Wire/Reader.antt =====
-- internal/wire/reader.go: `ReadBanner`, `ReadMessage` and the legacy command framing.
use ami.Base.{
  ℕ, zero, suc, ◌+◌, Bool, true, false, not, ◌&&◌, ◌||◌, List, [], ◌∷◌, ◌++◌, Option, some, none,
  Bytes, bytes_eq, ltb, length, if◌then◌else◌, Outcome, ok, err,
}
use ami.Wire.Types.{Field, Limits, Error}
use ami.Wire.Folding.{equal_fold}
use ami.Wire.Fields.{split_field, charge, Msg, no_fields, output_name, add, add_header, add_output}
use ami.Wire.Lines.{Reader, Hook, read_line}

-- A step of a read: the reader that it leaves, and its result.
abbrev pub Read : Type 0 → Type 0
Read A = Reader → Reader × Outcome Error A

-- What follows a step: an error ends the read, with the reader as it is.
abbrev pub proceed :
    {A B : Type 0} → (A → Read B) → Reader × Outcome Error A → Reader × Outcome Error B
proceed f (r, ok a) = f a r
proceed f (r, err e) = (r, err e)

infixl 5 ◌>>=◌ ◌>>◌
abbrev pub ◌>>=◌ : {A B : Type 0} → Read A → (A → Read B) → Read B
◌>>=◌ m f r = proceed f (m r)

abbrev pub ◌>>◌ : {B : Type 0} → Read (Unit {0}) → Read B → Read B
m >> k = m >>= λ _. k

-- A pure step that may fail.
abbrev pub lift : {A : Type 0} → Outcome Error A → Read A
lift o r = (r, o)

abbrev pub line : (Limits → ℕ) → Error → Read (Bytes × ℕ)
line max too_long r = read_line r (max r.lim) too_long

-- `noEOF`
abbrev pub no_eof : {A : Type 0} → Outcome Error A → Outcome Error A
no_eof (err Error.eof) = err Error.unexpected_eof
no_eof o = o

-- A message line: its end inside a message is never clean.
abbrev pub inner_line : Read (Bytes × ℕ)
inner_line r = let (r', o) = read_line r r.lim.max_line_bytes Error.line_too_long in (r', no_eof o)

abbrev pub message_charge : Msg → ℕ → Read Msg
message_charge m raw r = (
  r,
  elim (charge m.msg_bytes raw r.lim.max_message_bytes Error.message_too_large) [
    | ok bytes ↦ ok (record m { msg_bytes = bytes })
    | err e ↦ err e
  ],
)

-- `ReadBanner`
unfoldable pub read_banner : Read Bytes
read_banner = do
  (content, raw) ← line (λ lim. lim.max_banner_bytes) Error.banner_too_long
  λ r. (record r { dirty = false }, ok content)

-- A blank line where a message must start.
unfoldable pub take_padding : ℕ → Read (Unit {0})
take_padding raw r =
    if not r.after_message
    then (r, err Error.empty_message)
    else if ltb r.lim.max_message_bytes (r.pad + raw)
    then (record r { pad = r.pad + raw }, err Error.message_too_large)
    else (record r { pad = r.pad + raw; dirty = false; hooks = r.hooks ++ Hook.padded ∷ [] }, ok tt)

-- One round of `readStart`.
abbrev pub start_line : Read (Bytes × ℕ) → Bytes × ℕ → Read (Bytes × ℕ)
start_line next (c ∷ cs, raw) = λ r. (record r { pad = 0 }, ok (c ∷ cs, raw))
start_line next ([], raw) = take_padding raw >> next

-- `readStart`. Each round takes a byte at least, so that more fuel than the source has bytes is
-- enough.
unfoldable pub read_start : ℕ → Read (Bytes × ℕ)
read_start zero = lift (err Error.stuck)
read_start (suc fuel) =
    line (λ lim. lim.max_line_bytes) Error.line_too_long >>= start_line (read_start fuel)

-- `complete`
abbrev pub complete : Msg → Read (List Field)
complete m r = (record r { dirty = false; after_message = true }, ok m.fields)

-- One round of the loop of `ReadMessage`.
abbrev pub body_line : (Msg → Read (List Field)) → Msg → Bytes × ℕ → Read (List Field)
body_line next m ([], raw) = do m' ← message_charge m raw; complete m'
body_line next m (c ∷ cs, raw) = do
  f ← lift (split_field (c ∷ cs))
  m' ← λ r. (r, add r.lim m f raw)
  next m'

-- The loop of `ReadMessage`, from the second line on.
unfoldable pub read_body : ℕ → Msg → Read (List Field)
read_body zero m = lift (err Error.stuck)
read_body (suc fuel) m = inner_line >>= body_line (read_body fuel) m

abbrev pub response_name : Bytes
response_name = b'R' ∷ b'e' ∷ b's' ∷ b'p' ∷ b'o' ∷ b'n' ∷ b's' ∷ b'e' ∷ []

abbrev pub follows_name : Bytes
follows_name = b'F' ∷ b'o' ∷ b'l' ∷ b'l' ∷ b'o' ∷ b'w' ∷ b's' ∷ []

abbrev pub privilege_name : Bytes
privilege_name = b'P' ∷ b'r' ∷ b'i' ∷ b'v' ∷ b'i' ∷ b'l' ∷ b'e' ∷ b'g' ∷ b'e' ∷ []

abbrev pub action_id_name : Bytes
action_id_name = b'A' ∷ b'c' ∷ b't' ∷ b'i' ∷ b'o' ∷ b'n' ∷ b'I' ∷ b'D' ∷ []

-- "--END COMMAND--"
abbrev pub end_command : Bytes
end_command =
    b'-' ∷ b'-' ∷ b'E' ∷ b'N' ∷ b'D' ∷ b' ' ∷ b'C' ∷ b'O' ∷ b'M' ∷ b'M' ∷ b'A' ∷ b'N' ∷ b'D' ∷ b'-'
    ∷ b'-' ∷ []

-- `bytes.CutSuffix`
unfoldable pub cut_suffix : Bytes → Bytes → Option Bytes
cut_suffix [] suffix = if bytes_eq [] suffix then some [] else none
cut_suffix (c ∷ s) suffix =
    let rest = cut_suffix s suffix in
    if bytes_eq (c ∷ s) suffix
    then some []
    else elim rest [ none ↦ none | some front ↦ some (c ∷ front) ]

-- A trailer header in front of the output.
abbrev pub trailer : Bytes → Option Field
trailer content = elim (split_field content) [
  | err e ↦ none
  | ok f ↦
      if equal_fold f.key privilege_name || equal_fold f.key action_id_name then some f else none
]

abbrev pub output : Bytes → Field
output content = record { key = output_name; value = content }

-- The line that ends the output: what stands in front of the terminator is output.
unfoldable pub last_output : Msg → Bytes → ℕ → Read Msg
last_output m [] raw = message_charge m raw
last_output m (c ∷ front) raw = λ r. (r, add_output r.lim m (output (c ∷ front)) raw)

abbrev pub legacy_blank : Msg → Bytes × ℕ → Read (List Field)
legacy_blank m (c ∷ cs, raw) = lift (err Error.command_framing)
legacy_blank m ([], raw) = do m' ← message_charge m raw; complete m'

-- The blank line behind the terminator.
unfoldable pub end_legacy : Msg → Read (List Field)
end_legacy m = inner_line >>= legacy_blank m

abbrev pub trailer_if : Bool → Bytes → Option Field
trailer_if headers content = if headers then trailer content else none

-- A line that is no trailer header, and what stands in front of the terminator in it.
abbrev pub legacy_output :
    (Bool → Msg → Read (List Field)) → Msg → Bytes → ℕ → Option Bytes → Read (List Field)
legacy_output next m content raw none = do
  m' ← λ r. (r, add_output r.lim m (output content) raw)
  next false m'
legacy_output next m content raw (some front) = do m' ← last_output m front raw; end_legacy m'

abbrev pub legacy_line :
    (Bool → Msg → Read (List Field)) → Msg → Bytes → ℕ → Option Field → Read (List Field)
legacy_line next m content raw none =
    legacy_output next m content raw (cut_suffix content end_command)
legacy_line next m content raw (some f) = do m' ← λ r. (r, add_header r.lim m f raw); next true m'

-- The loop of `readLegacyCommand`; `headers` tells whether trailer headers may still come.
unfoldable pub read_legacy : ℕ → Bool → Msg → Read (List Field)
read_legacy zero headers m = lift (err Error.stuck)
read_legacy (suc fuel) headers m = do
  (content, raw) ← inner_line
  legacy_line (read_legacy fuel) m content raw (trailer_if headers content)

-- The test for the legacy framing, on the first field.
abbrev pub is_legacy : Field → Bool
is_legacy f = equal_fold f.key response_name && equal_fold f.value follows_name

abbrev pub message_rest : ℕ → Field → Msg → Read (List Field)
message_rest fuel f m = if is_legacy f then read_legacy fuel true m else read_body fuel m

-- `ReadMessage`
unfoldable pub read_message : Read (List Field)
read_message r =
    let fuel = length r.source + 1 in
    (do
      (content, raw) ← read_start fuel
      f ← lift (split_field content)
      m ← λ s. (s, add s.lim no_fields f raw)
      message_rest fuel f m)
      r
