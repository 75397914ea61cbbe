-- ===== src/Wire/Lines.antt =====
-- internal/wire/reader.go: the state of a `Reader` and `readLine`.
use ami.Base.{
  ℕ, zero, suc, ◌+◌, Bool, true, false, ◌&&◌, List, [], ◌∷◌, ◌++◌, Bytes, nat_eq, ltb, length,
  if◌then◌else◌, Outcome, ok, err,
}
use ami.Wire.Types.{Limits, Error}

-- How the stream ends behind its bytes: cleanly, or by an error of the transport. The end comes on
-- its own, with no bytes.
pub data Ending : Type 0 where
  closed failed : Ending

pub data Hook : Type 0 where
  frame_started padded : Hook

-- `source` is what the transport and the buffer still hold, and `hooks` are the calls of the two
-- hooks so far, oldest first.
pub record Reader : Type 0 where
  pub lim : Limits
  pub source : Bytes
  pub ending : Ending
  pub dirty : Bool
  pub after_message : Bool
  pub pad : ℕ
  pub hooks : List Hook

-- `NewReader`, on a transport with these bytes to come.
unfoldable pub new_reader : Bytes → Ending → Limits → Reader
new_reader source ending lim = record {
  lim = lim;
  source = source;
  ending = ending;
  dirty = false;
  after_message = false;
  pad = 0;
  hooks = [];
}

-- The size of a `bufio.Reader` by default.
unfoldable pub buffer_size : ℕ
buffer_size = 4096

-- `bufio.Reader.ReadSlice('\n')`: the bytes up to a line feed, or a full buffer, or what is left
-- when the stream ends.
pub data Slice : Type 0 where
  found full : Bytes → Bytes → Slice
  ended : Bytes → Slice

abbrev pub prepend : ℕ → Slice → Slice
prepend c (found s rest) = found (c ∷ s) rest
prepend c (full s rest) = full (c ∷ s) rest
prepend c (ended s) = ended (c ∷ s)

unfoldable pub read_slice : ℕ → Bytes → Slice
read_slice zero s = full [] s
read_slice (suc room) [] = ended []
read_slice (suc room) (c ∷ s) =
    let rest = read_slice room s in if nat_eq c b'\n' then found (c ∷ []) s else prepend c rest

-- The line without its terminator: the line feed, and one carriage return in front of it.
unfoldable pub trim_line : Bytes → Bytes
trim_line [] = []
trim_line (c ∷ []) = if nat_eq c b'\n' then [] else c ∷ []
trim_line (c ∷ d ∷ []) = if nat_eq c b'\r' && nat_eq d b'\n' then [] else c ∷ trim_line (d ∷ [])
trim_line (c ∷ d ∷ e ∷ s) = c ∷ trim_line (d ∷ e ∷ s)

abbrev pub end_error : Ending → Bytes → Error
end_error Ending.failed buf = Error.transport
end_error Ending.closed [] = Error.eof
end_error Ending.closed (c ∷ buf) = Error.unexpected_eof

-- The line, and the bytes that it took.
abbrev pub finish_line : ℕ → Error → Bytes → Outcome Error (Bytes × ℕ)
finish_line max too_long buf =
    if ltb max (length (trim_line buf)) then err too_long else ok (trim_line buf, length buf)

-- The loop of `readLine`, with the bytes that are left. Every full buffer takes bytes from the
-- source, so that more fuel than the source has bytes is enough.
unfoldable pub read_chunks :
    ℕ → ℕ → Error → Ending → Bytes → Bytes → Bytes × Outcome Error (Bytes × ℕ)
read_chunks zero max too_long ending buf s = (s, err Error.stuck)
read_chunks (suc fuel) max too_long ending buf s = elim (read_slice buffer_size s) [
  | found frag rest ↦ (rest, finish_line max too_long (buf ++ frag))
  | full frag rest ↦
      let more = read_chunks fuel max too_long ending (buf ++ frag) rest in
      if ltb (max + 1) (length (buf ++ frag)) then (rest, err too_long) else more
  | ended frag ↦ ([], err (end_error ending (buf ++ frag)))
]

-- `frameStart`
unfoldable pub frame_start : Reader → Reader
frame_start r =
    if r.dirty then r else record r { dirty = true; hooks = r.hooks ++ Hook.frame_started ∷ [] }

abbrev pub has_bytes : Bytes → Bool
has_bytes [] = false
has_bytes (c ∷ s) = true

-- A read that gets any byte, buffered or from the transport, starts the frame.
abbrev pub touched : Reader → Reader
touched r = if has_bytes r.source then frame_start r else r

-- `readLine`
unfoldable pub read_line : Reader → ℕ → Error → Reader × Outcome Error (Bytes × ℕ)
read_line r max too_long =
    let (left, result) = read_chunks (length r.source + 1) max too_long r.ending [] r.source in
    (record (touched r) { source = left }, result)
