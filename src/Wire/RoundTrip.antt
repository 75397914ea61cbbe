-- ===== src/Wire/RoundTrip.antt =====
-- A message that `AppendMessage` writes is the message that `ReadMessage` reads.
use ami.Base.{
  ℕ, zero, suc, ◌+◌, ◌≤◌, ◌<◌, ◌≡◌, refl, ap, sym, ◌∙◌, true, false, List, [], ◌∷◌, ◌++◌,
  append_assoc, append-nil, Bytes, length, length-append, ok, arith,
}
use ami.Wire.Types.{Field, Limits, Error}
use ami.Wire.Writer.{is_nil, crlf, field_line, encode}
use ami.Wire.Fields.{split_field, Msg, add}
use ami.Wire.Lines.{Reader, frame_start, read_line}
use ami.Wire.Reader.{inner_line, read_body}
use ami.Wire.LineLaws.{Free, Free-append, is_lf, strip_cr}
use ami.Wire.LineReads.{line_of, read_line-line_of, read_line-frame_start}
use ami.Wire.FieldLaws.{
  AllSendable, length-field_line, split_field-field_line, field_line-Free, HasRoom, add_lem,
}

strip_cr-cr : (s : Bytes) → strip_cr (s ++ (b'\r' ∷ [])) ≡ s
strip_cr-cr [] = refl
strip_cr-cr (c ∷ []) = refl
strip_cr-cr (c ∷ d ∷ s) = ap (λ t. c ∷ t) (strip_cr-cr (d ∷ s))

cr_lf : (s rest : Bytes) → s ++ (crlf ++ rest) ≡ (s ++ (b'\r' ∷ [])) ++ (b'\n' ∷ rest)
cr_lf s rest = sym (append_assoc s (b'\r' ∷ []) (b'\n' ∷ rest))

-- A line with the terminator of the writer, and within the limit.
pub crlf_line :
    (r : Reader) (max : ℕ) (e : Error) (s rest : Bytes)
    → r.source ≡ s ++ (crlf ++ rest)
    → Free is_lf s
    → length s ≤ max
    → read_line r max e ≡ (record (frame_start r) { source = rest }, ok (s, length s + 2))
crlf_line r max e s rest h f room = λ i. (left i, result i)
  where
    free : Free is_lf (s ++ (b'\r' ∷ []))
    free = Free-append is_lf s (b'\r' ∷ []) f (refl, tt)

    left : (read_line r max e).0 ≡ record (frame_start r) { source = rest }
    left =
        read_line-frame_start r max e (s ++ (b'\r' ∷ [])) rest (h ∙ cr_lf s rest) free
          (omega (arith, length-append {0} s (b'\r' ∷ [])))

    result : (read_line r max e).1 ≡ ok (s, length s + 2)
    result =
        read_line-line_of r max e (s ++ (b'\r' ∷ [])) rest (h ∙ cr_lf s rest) free
        ∙ (unfold line_of in ground (arith, strip_cr-cr s, length-append {0} s (b'\r' ∷ [])))

frame_start-dirty : (r : Reader) → r.dirty ≡ true → frame_start r ≡ r
unfolding frame_start
frame_start-dirty r d = rw d refl

-- What a message line leaves, inside a frame.
taken : Reader → Bytes → Reader
taken r rest = record r { source = rest }

inner_crlf :
    (r : Reader) (s rest : Bytes)
    → r.dirty ≡ true
    → r.source ≡ s ++ (crlf ++ rest)
    → Free is_lf s
    → length s ≤ r.lim.max_line_bytes
    → inner_line r ≡ (record r { source = rest }, ok (s, length s + 2))
inner_crlf r s rest d h f room =
    rw (crlf_line r r.lim.max_line_bytes Error.line_too_long s rest h f room)
      (rw (frame_start-dirty r d) refl)

body_field :
    (fuel raw : ℕ) (r r1 : Reader) (m m' : Msg) (f : Field) (s : Bytes)
    → inner_line r ≡ (r1, ok (s, raw))
    → is_nil s ≡ false
    → split_field s ≡ ok f
    → add r1.lim m f raw ≡ ok m'
    → read_body (suc fuel) m r ≡ read_body fuel m' r1
unfolding read_body
body_field fuel raw r r1 m m' f [] h n p a = absurd (cc)
body_field fuel raw r r1 m m' f (c ∷ s) h n p a = rw (h, read_body) (rw p (rw a refl))

body_end :
    (fuel raw : ℕ) (r r1 : Reader) (m : Msg)
    → inner_line r ≡ (r1, ok ([], raw))
    → m.msg_bytes + raw ≤ r1.lim.max_message_bytes
    → read_body (suc fuel) m r ≡ (record r1 { dirty = false; after_message = true }, ok m.fields)
unfolding read_body
body_end fuel raw r r1 m h room = rw (h, read_body) (ground arith)

pub field_line-named : (f : Field) → is_nil f.key ≡ false → is_nil (field_line f) ≡ false
field_line-named f n = keyed f.key f.value n
  where
    keyed : (key value : Bytes) → is_nil key ≡ false → is_nil (key ++ (b':' ∷ b' ' ∷ value)) ≡ false
    keyed [] value h = absurd (cc)
    keyed (c ∷ key) value h = refl

pub encode_tail :
    (f : Field) (fs : List Field) (rest : Bytes)
    → encode (f ∷ fs) ++ rest ≡ field_line f ++ (crlf ++ (encode fs ++ rest))
unfolding encode
encode_tail f fs rest = append_assoc (field_line f) (crlf ++ encode fs) rest

pub read_body-encode :
    (fuel : ℕ) (out : Limits) (rest : Bytes) (fs : List Field) (r : Reader) (m : Msg)
    → length fs < fuel
    → r.dirty ≡ true
    → r.source ≡ encode fs ++ rest
    → AllSendable out fs
    → out.max_action_line_bytes ≤ r.lim.max_line_bytes
    → HasRoom r.lim m fs
    → read_body fuel m r
      ≡ (record r { source = rest; dirty = false; after_message = true }, ok (m.fields ++ fs))
read_body-encode zero out rest fs r m g d h all wide v = absurd (omega arith)
read_body-encode (suc fuel) out rest [] r m g d h all wide v =
    body_end fuel 2 r (record r { source = rest }) m
      (inner_crlf r [] rest d (unfold encode in h) tt (omega arith)) (omega (arith, v.bytes_room))
    ∙ rw (append-nil m.fields) refl
read_body-encode (suc fuel) out rest (f ∷ fs) r m g d h all wide v =
    let (m', added, grown, v') = add_lem r.lim m f fs v in
    body_field fuel (length (field_line f) + 2) r (record r { source = encode fs ++ rest }) m m' f
      (field_line f)
      (inner_crlf r (field_line f) (encode fs ++ rest) d (h ∙ encode_tail f fs rest)
        (field_line-Free out f all.0) (omega (arith, length-field_line f, all.0.fits)))
      (field_line-named f all.0.named) (split_field-field_line out f all.0) added
    ∙ read_body-encode fuel out rest fs (record r { source = encode fs ++ rest }) m' (omega arith) d
        refl all.1 wide v'
    ∙ rw grown (rw (append_assoc m.fields (f ∷ []) fs) refl)
