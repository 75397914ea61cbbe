-- ===== src/Client/Framer.antt =====
-- conn.go: `writeAction` and `wireError`.
pub mod Writes
pub mod Delivery
use ami.Base.{
  ℕ, ◌+◌, Bool, true, false, not, ◌&&◌, ◌||◌, List, [], ◌∷◌, ◌++◌, Option, some, none, Bytes,
  nat_eq, ltb, length, take, if◌then◌else◌, Outcome, ok, err,
}
use ami.Wire.Types.{Field}
use ami.Wire.Types as Wire
use ami.Wire.Writer.{contains_any, is_break, is_nil, append_message}
use ami.Client.Message.{Action, action_key, action_id_key}

pub data Category : Type 0 where
  limit framing envelope : Category

-- The texts of `ProtocolError.Dimension`, one constructor for each.
pub data Dimension : Type 0 where
  max_banner_bytes max_line_bytes max_fields max_message_bytes max_command_output_lines : Dimension
  max_command_output_bytes max_action_fields max_action_line_bytes max_action_bytes : Dimension
  malformed_line empty_message command_output_framing field_key field_value : Dimension
  empty_action_name action_id max_partial_frame_age : Dimension

-- Why a context is done.
pub data Cause : Type 0 where
  canceled deadline_exceeded : Cause

-- An error of the transport: an expired deadline, or any other.
pub data Fault : Type 0 where
  deadline other : Fault

pub data Error : Type 0 where
  protocol : Category → Dimension → Error
  stream : Wire.Error → Error
  context : Cause → Error
  fault : Fault → Error
  closed short_write : Error

-- `wireError`
unfoldable pub wire_error : Wire.Error → Error
wire_error Wire.Error.banner_too_long = Error.protocol Category.limit Dimension.max_banner_bytes
wire_error Wire.Error.line_too_long = Error.protocol Category.limit Dimension.max_line_bytes
wire_error Wire.Error.too_many_fields = Error.protocol Category.limit Dimension.max_fields
wire_error Wire.Error.message_too_large = Error.protocol Category.limit Dimension.max_message_bytes
wire_error Wire.Error.too_many_output_lines =
    Error.protocol Category.limit Dimension.max_command_output_lines
wire_error Wire.Error.output_too_large =
    Error.protocol Category.limit Dimension.max_command_output_bytes
wire_error Wire.Error.too_many_action_fields =
    Error.protocol Category.limit Dimension.max_action_fields
wire_error Wire.Error.action_line_too_long =
    Error.protocol Category.limit Dimension.max_action_line_bytes
wire_error Wire.Error.action_too_large = Error.protocol Category.limit Dimension.max_action_bytes
wire_error Wire.Error.malformed_line = Error.protocol Category.framing Dimension.malformed_line
wire_error Wire.Error.empty_message = Error.protocol Category.framing Dimension.empty_message
wire_error Wire.Error.command_framing =
    Error.protocol Category.framing Dimension.command_output_framing
wire_error Wire.Error.invalid_key = Error.protocol Category.envelope Dimension.field_key
wire_error Wire.Error.invalid_value = Error.protocol Category.envelope Dimension.field_value
wire_error e = Error.stream e

pub data Disposition : Type 0 where
  complete rejected canceled closed not_sent outcome_unknown : Disposition

-- The framer, as far as a write goes.
pub record Framer : Type 0 where
  pub lim : Wire.Limits
  pub closed : Bool

-- What the world does to one write: whether the context is done when it starts, what `conn.Write`
-- returns, whether the context ended meanwhile and why, and whether `close` was called meanwhile.
pub record World : Type 0 where
  pub entry : Option Cause
  pub written : ℕ
  pub failed : Option Fault
  pub interrupted : Bool
  pub cause : Cause
  pub closing : Bool

-- The framer behind the write, the disposition, the error, and the bytes that the transport took.
pub record Written : Type 0 where
  pub framer : Framer
  pub disposition : Disposition
  pub error : Option Error
  pub sent : Bytes

abbrev pub unsent : Framer → Disposition → Error → Written
unsent f d e = record { framer = f; disposition = d; error = some e; sent = [] }

-- The fields of the message: the name, the ActionID unless it is empty, and the action's own.
unfoldable pub envelope_fields : Action → Bytes → List Field
envelope_fields a id =
    let own =
      if is_nil id then a.fields else record { key = action_id_key; value = id } ∷ a.fields in
    record { key = action_key; value = a.name } ∷ own

abbrev pub is_deadline : Error → Bool
is_deadline (Error.fault Fault.deadline) = true
is_deadline _ = false

-- The error of a write that has failed: a write of too few bytes has one too.
abbrev pub write_fault : Option Fault → Error
write_fault none = Error.short_write
write_fault (some e) = Error.fault e

abbrev pub is_none : Option Fault → Bool
is_none none = true
is_none (some e) = false

-- The part of `writeAction` behind a write that is not complete, with the framer that `close` left.
unfoldable pub failed_write : Framer → World → Bytes → Written
failed_write f w sent =
    if f.closed
    then (if ltb 0 w.written
        then record {
          framer = f;
          disposition = Disposition.outcome_unknown;
          error = some Error.closed;
          sent = sent;
        }
        else record {
          framer = f;
          disposition = Disposition.closed;
          error = some Error.closed;
          sent = sent;
        })
    else if w.interrupted && nat_eq w.written 0 && is_deadline (write_fault w.failed)
    then record {
      framer = f;
      disposition = Disposition.canceled;
      error = some (Error.context w.cause);
      sent = sent;
    }
    else record {
      framer = record f { closed = true };
      disposition = if ltb 0 w.written then Disposition.outcome_unknown else Disposition.not_sent;
      error = some (write_fault w.failed);
      sent = sent;
    }

-- The part of `writeAction` from `conn.Write` on.
unfoldable pub transmit : Framer → World → Bytes → Written
transmit f w buf =
    let sent = take w.written buf in
    let left : Framer = record f { closed = f.closed || w.closing } in
    if is_none w.failed && nat_eq w.written (length buf)
    then record { framer = left; disposition = Disposition.complete; error = none; sent = sent }
    else failed_write left w sent

abbrev pub encoded : Framer → World → Outcome Wire.Error Bytes → Written
encoded f w (err e) = unsent f Disposition.rejected (wire_error e)
encoded f w (ok buf) = transmit f w buf

-- `writeAction`
unfoldable pub write_action : Framer → World → Action → Bytes → Written
write_action f w a id = elim w.entry [
  | some c ↦ unsent f Disposition.canceled (Error.context c)
  | none ↦
      if f.closed
      then unsent f Disposition.closed Error.closed
      else if is_nil a.name
      then unsent f Disposition.rejected
          (Error.protocol Category.envelope Dimension.empty_action_name)
      else if contains_any id is_break
      then unsent f Disposition.rejected (Error.protocol Category.envelope Dimension.action_id)
      else encoded f w (append_message [] (envelope_fields a id) f.lim)
]
