-- ===== src/Wire/Padding.antt =====
-- Blank lines between two messages.
use ami.Base.{ℕ, zero, suc, ◌+◌, false, [], ◌∷◌, ◌++◌, Bytes}
use ami.Wire.Writer.{crlf}
use ami.Wire.Lines.{Reader, Hook}

abbrev pub blanks : ℕ → Bytes
blanks zero = []
blanks (suc n) = crlf ++ blanks n

-- What one blank line leaves: the frame that its first byte started is taken back.
abbrev pub padded_once : Reader → Bytes → Reader
padded_once r rest = record r {
  source = rest;
  dirty = false;
  pad = r.pad + 2;
  hooks = (r.hooks ++ Hook.frame_started ∷ []) ++ Hook.padded ∷ [];
}

abbrev pub padded : ℕ → Reader → Bytes → Reader
padded zero r tail = record r { source = tail }
padded (suc n) r tail = padded n (padded_once r (blanks n ++ tail)) tail
