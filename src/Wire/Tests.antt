-- ===== src/Wire/Tests.antt =====
-- Runs of the reader and the writer.
use ami.Base.{◌≡◌, refl, true, false, List, [], ◌∷◌, ◌++◌, Bytes, ok, length, arith}
use ami.Wire.Types.{Field, Limits, Error}
use ami.Wire.Folding.{equal_fold}
use ami.Wire.Writer.{append_message, encode, check_fields, contains_any}
use ami.Wire.Fields.{add, add_header, split_field, cut_colon}
use ami.Wire.Lines.{
  Reader, Ending, Hook, new_reader, read_line, read_chunks, read_slice, trim_line, frame_start,
  buffer_size,
}
use ami.Wire.Exchange.{Admits, after, read_message-append_message}
use ami.Wire.Padding.{blanks}
use ami.Wire.Progress.{Ends}
use ami.Wire.Endings.{read_message-Ends}
use ami.Wire.LineReads.{line_of, read_line-line_of}
use ami.Wire.Reader.{is_legacy, read_message, read_start, read_body}

abbrev lim : Limits
lim = record {
  max_banner_bytes = 20;
  max_line_bytes = 40;
  max_fields = 4;
  max_message_bytes = 100;
  max_command_output_lines = 4;
  max_command_output_bytes = 100;
  max_action_fields = 4;
  max_action_line_bytes = 30;
  max_action_bytes = 90;
}

abbrev ping : List Field
ping =
    record { key = b'A' ∷ b'B' ∷ []; value = b'x' ∷ [] }
    ∷ record { key = b'C' ∷ []; value = [] }
    ∷ []

abbrev ping_bytes : Bytes
ping_bytes =
    b'A' ∷ b'B' ∷ b':' ∷ b' ' ∷ b'x' ∷ b'\r' ∷ b'\n' ∷ b'C' ∷ b':' ∷ b' ' ∷ b'\r' ∷ b'\n' ∷ b'\r'
    ∷ b'\n' ∷ []

ping_encoded : append_message [] ping lim ≡ ok ping_bytes
unfolding append_message check_fields encode contains_any
ping_encoded = refl

ping_read : read_message (new_reader ping_bytes Ending.closed lim) ≡ (
  record (new_reader [] Ending.closed lim) {
    after_message = true;
    hooks = Hook.frame_started ∷ [];
  },
  ok ping,
)
unfolding read_message read_start read_body new_reader read_line read_chunks read_slice trim_line
    frame_start buffer_size split_field cut_colon add add_header equal_fold
ping_read = refl

abbrev ping_first : Field
ping_first = record { key = b'A' ∷ b'B' ∷ []; value = b'x' ∷ [] }

abbrev ping_rest : List Field
ping_rest = record { key = b'C' ∷ []; value = [] } ∷ []

abbrev ping_reader : Reader
ping_reader = record {
  lim = lim;
  source = ping_bytes;
  ending = Ending.closed;
  dirty = false;
  after_message = false;
  pad = 0;
  hooks = [];
}

ping_not_legacy : is_legacy ping_first ≡ false
unfolding equal_fold
ping_not_legacy = refl

lim_Admits : Admits lim lim
lim_Admits = record {
  lines = omega arith;
  fields = omega arith;
  bytes = omega arith;
  output_lines = omega arith;
  output_bytes = omega arith;
}

read_message-append_message_example :
    read_message ping_reader ≡ (after ping_reader [], ok (ping_first ∷ ping_rest))
read_message-append_message_example =
    read_message-append_message lim ping_first ping_rest ping_bytes [] ping_reader ping_encoded
      ping_not_legacy lim_Admits refl refl

abbrev idle_reader : Reader
idle_reader = record ping_reader { source = blanks 2 ++ (ping_bytes ++ []); after_message = true }

read_message-Ends_example : Ends (length ping_reader.source) (read_message ping_reader)
read_message-Ends_example = read_message-Ends ping_reader

read_line-line_of_example :
    (read_line ping_reader 10 Error.line_too_long).1
    ≡ line_of 10 Error.line_too_long (b'A' ∷ b'B' ∷ b':' ∷ b' ' ∷ b'x' ∷ b'\r' ∷ [])
read_line-line_of_example =
    read_line-line_of ping_reader 10 Error.line_too_long
      (b'A' ∷ b'B' ∷ b':' ∷ b' ' ∷ b'x' ∷ b'\r' ∷ [])
      (b'C' ∷ b':' ∷ b' ' ∷ b'\r' ∷ b'\n' ∷ b'\r' ∷ b'\n' ∷ []) refl
      (refl, (refl, (refl, (refl, (refl, (refl, tt))))))
