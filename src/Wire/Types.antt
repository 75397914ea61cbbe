-- ===== src/Wire/Types.antt =====
-- internal/wire/wire.go: fields, limits and errors.
use ami.Base.{ℕ, Bytes, ltb, Outcome, guard, ◌>>◌}

pub record Field : Type 0 where
  pub key : Bytes
  pub value : Bytes

pub record Limits : Type 0 where
  pub max_banner_bytes : ℕ
  pub max_line_bytes : ℕ
  pub max_fields : ℕ
  pub max_message_bytes : ℕ
  pub max_command_output_lines : ℕ
  pub max_command_output_bytes : ℕ
  pub max_action_fields : ℕ
  pub max_action_line_bytes : ℕ
  pub max_action_bytes : ℕ

-- The sentinels of the package, and what the stream itself reports: `io.EOF`,
-- `io.ErrUnexpectedEOF`, and any other error of the transport. `stuck` stands for a loop of the
-- model that has used up its fuel.
pub data Error : Type 0 where
  banner_too_long line_too_long too_many_fields message_too_large too_many_output_lines : Error
  output_too_large malformed_line empty_message command_framing too_many_action_fields : Error
  action_line_too_long action_too_large invalid_key invalid_value : Error
  eof unexpected_eof transport stuck : Error

-- What `Validate` names: the first limit that is not positive.
pub data Limit : Type 0 where
  banner_bytes line_bytes fields message_bytes command_output_lines command_output_bytes : Limit
  action_fields action_line_bytes action_bytes : Limit

-- `Validate`
unfoldable pub validate : Limits → Outcome Limit (Unit {0})
validate l = do
  guard (ltb 0 l.max_banner_bytes) Limit.banner_bytes
  guard (ltb 0 l.max_line_bytes) Limit.line_bytes
  guard (ltb 0 l.max_fields) Limit.fields
  guard (ltb 0 l.max_message_bytes) Limit.message_bytes
  guard (ltb 0 l.max_command_output_lines) Limit.command_output_lines
  guard (ltb 0 l.max_command_output_bytes) Limit.command_output_bytes
  guard (ltb 0 l.max_action_fields) Limit.action_fields
  guard (ltb 0 l.max_action_line_bytes) Limit.action_line_bytes
  guard (ltb 0 l.max_action_bytes) Limit.action_bytes
