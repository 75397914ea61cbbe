-- ===== src/Wire/LineReads.antt =====
-- `readLine` as one step on a stream that holds the whole line.
use ami.Base.{
  ℕ, ◌+◌, ◌≤◌, ◌<◌, ◌≡◌, refl, ap, [], ◌∷◌, ◌++◌, Bytes, ltb, length, length-append, if◌then◌else◌,
  Outcome, ok, err, arith,
}
use ami.Wire.Types.{Error}
use ami.Wire.Lines.{Reader, frame_start, touched, read_line}
use ami.Wire.LineLaws.{Free, is_lf, trim_line-lf, strip_cr, read_chunks-line, read_chunks-rest}

-- The reference: the text in front of the line feed, less one carriage return at its end, and the
-- length of it all.
unfoldable pub line_of : ℕ → Error → Bytes → Outcome Error (Bytes × ℕ)
line_of max too_long c =
    if ltb max (length (strip_cr c)) then err too_long else ok (strip_cr c, length c + 1)

fuel_fits : (c rest : Bytes) → length c < length (c ++ (b'\n' ∷ rest)) + 1
fuel_fits c rest = omega (arith, length-append {0} c (b'\n' ∷ rest))

-- When the stream holds a text with no line feed, a line feed and more, then `readLine`, however
-- many buffers the text takes, returns what `line_of` says of the text: its bytes without a carriage
-- return at the end and the count of all that it took, or the given error when they are too many.
pub read_line-line_of :
    (r : Reader) (max : ℕ) (e : Error) (c rest : Bytes)
    → r.source ≡ c ++ (b'\n' ∷ rest)
    → Free is_lf c
    → (read_line r max e).1 ≡ line_of max e c
unfolding read_line line_of
read_line-line_of r max e c rest h f = rw (h) (
    rw (read_chunks-line _ max e r.ending [] c rest f (fuel_fits c rest))
      (rw (trim_line-lf c f) (rw (length-append {0} c (b'\n' ∷ [])) refl)))

touched-frame_start :
    (r : Reader) (c rest : Bytes) → r.source ≡ c ++ (b'\n' ∷ rest) → touched r ≡ frame_start r
touched-frame_start r [] rest h = ground (arith, h)
touched-frame_start r (x ∷ c) rest h = ground (arith, h)

-- When the text in front of the line feed is at most one byte longer than the limit, `readLine`
-- leaves the stream behind the line feed, and the frame started.
pub read_line-frame_start :
    (r : Reader) (max : ℕ) (e : Error) (c rest : Bytes)
    → r.source ≡ c ++ (b'\n' ∷ rest)
    → Free is_lf c
    → length c ≤ max + 1
    → (read_line r max e).0 ≡ record (frame_start r) { source = rest }
unfolding read_line
read_line-frame_start r max e c rest h f room = rw (touched-frame_start r c rest h) (
    ap (λ s. record (frame_start r) { source = s })
      (rw (h) (read_chunks-rest _ max e r.ending [] c rest f (fuel_fits c rest) (omega arith))))
