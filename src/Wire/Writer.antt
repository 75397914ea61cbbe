-- ===== src/Wire/Writer.antt =====
-- internal/wire/writer.go
use ami.Base.{
  ℕ, ◌+◌, Bool, true, false, ◌||◌, not, List, [], ◌∷◌, ◌++◌, Bytes, nat_eq, ltb, length, Outcome,
  ok, err, guard, ◌>>◌,
}
use ami.Wire.Types.{Field, Limits, Error}

-- `strings.ContainsAny` of a text and a set of ASCII bytes.
unfoldable pub contains_any : Bytes → (ℕ → Bool) → Bool
contains_any [] p = false
contains_any (c ∷ s) p = p c || contains_any s p

abbrev pub is_break : ℕ → Bool
is_break c = nat_eq c 0 || nat_eq c b'\r' || nat_eq c b'\n'

abbrev pub is_break_or_colon : ℕ → Bool
is_break_or_colon c = nat_eq c b':' || is_break c

abbrev pub crlf : Bytes
crlf = b'\r' ∷ b'\n' ∷ []

abbrev pub colon_space : Bytes
colon_space = b':' ∷ b' ' ∷ []

abbrev pub is_nil : Bytes → Bool
is_nil [] = true
is_nil (c ∷ s) = false

-- The content of an encoded line.
abbrev pub field_line : Field → Bytes
field_line f = f.key ++ (colon_space ++ f.value)

-- The first loop, with the bytes counted so far.
unfoldable pub check_fields : Limits → ℕ → List Field → Outcome Error (Unit {0})
check_fields lim total [] = ok tt
check_fields lim total (f ∷ fields) =
    let rest = check_fields lim (total + (length f.key + 2 + length f.value + 2)) fields in
    do
      guard (not (is_nil f.key || contains_any f.key is_break_or_colon)) Error.invalid_key
      guard (not (contains_any f.value is_break)) Error.invalid_value
      guard (not (ltb lim.max_action_line_bytes (length f.key + 2 + length f.value)))
          Error.action_line_too_long
      guard (not (ltb lim.max_action_bytes (total + (length f.key + 2 + length f.value + 2))))
          Error.action_too_large
      rest

-- The second loop and the blank line.
unfoldable pub encode : List Field → Bytes
encode [] = crlf
encode (f ∷ fields) = field_line f ++ (crlf ++ encode fields)

-- `AppendMessage`. On an error Go returns `dst` as it was.
unfoldable pub append_message : Bytes → List Field → Limits → Outcome Error Bytes
append_message dst [] lim = err Error.empty_message
append_message dst (f ∷ fields) lim = do
  guard (not (ltb lim.max_action_fields (length (f ∷ fields)))) Error.too_many_action_fields
  check_fields lim 2 (f ∷ fields)
  ok (dst ++ encode (f ∷ fields))
