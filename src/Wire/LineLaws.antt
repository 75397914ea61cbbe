-- ===== src/Wire/LineLaws.antt =====
-- `readLine` against the line that the stream holds.
use ami.Base.{
  ℕ, zero, suc, ◌+◌, ◌≤◌, ◌<◌, ◌≡◌, refl, ap, sym, ◌∙◌, Bool, false, inl, inr, [], ◌∷◌, ◌++◌,
  append_assoc, Bytes, nat_eq, ltb, length, take, drop, length-append, length-drop,
  take-append-drop, if◌then◌else◌, Bool-cases, ltb→lt, not_ltb→le, err, arith,
}
use ami.Wire.Types.{Error}
use ami.Wire.Writer.{contains_any, crlf}
use ami.Wire.Lines.{
  Ending, found, full, read_slice, trim_line, finish_line, read_chunks, buffer_size,
}

-- No byte of the text passes the test.
abbrev pub Free : (ℕ → Bool) → Bytes → Type 0
Free p [] = Unit
Free p (c ∷ s) = (p c ≡ false) × Free p s

abbrev pub is_lf : ℕ → Bool
is_lf c = nat_eq c b'\n'

pub contains_any-Free : (s : Bytes) (p : ℕ → Bool) → contains_any s p ≡ false → Free p s
unfolding contains_any
contains_any-Free [] p h = tt
contains_any-Free (c ∷ s) p h = (ground arith, contains_any-Free s p (ground (arith, h)))

pub Free-append : (p : ℕ → Bool) (s t : Bytes) → Free p s → Free p t → Free p (s ++ t)
Free-append p [] t f g = g
Free-append p (c ∷ s) t f g = (f.0, Free-append p s t f.1 g)

pub Free-imp :
    (p q : ℕ → Bool) (s : Bytes) → ((c : ℕ) → p c ≡ false → q c ≡ false) → Free p s → Free q s
Free-imp p q [] h f = tt
Free-imp p q (c ∷ s) h f = (h c f.0, Free-imp p q s h f.1)

Free-drop : (p : ℕ → Bool) (n : ℕ) (s : Bytes) → Free p s → Free p (drop n s)
Free-drop p zero s f = f
Free-drop p (suc n) [] f = f
Free-drop p (suc n) (c ∷ s) f = Free-drop p n s f.1

-- The terminator goes, and nothing else.
pub trim_line-crlf : (s : Bytes) → trim_line (s ++ crlf) ≡ s
unfolding trim_line
trim_line-crlf [] = refl
trim_line-crlf (c ∷ []) = refl
trim_line-crlf (c ∷ d ∷ []) = refl
trim_line-crlf (c ∷ d ∷ e ∷ s) = ap (λ t. c ∷ t) (trim_line-crlf (d ∷ e ∷ s))

length-trim_line : (s : Bytes) → length s ≤ length (trim_line s) + 2
unfolding trim_line
length-trim_line [] = omega arith
length-trim_line (c ∷ []) = ground arith
length-trim_line (c ∷ d ∷ []) = ground arith
length-trim_line (c ∷ d ∷ e ∷ s) = omega (arith, length-trim_line (d ∷ e ∷ s))

read_slice-found :
    (room : ℕ) (c rest : Bytes)
    → Free is_lf c
    → length c < room
    → read_slice room (c ++ (b'\n' ∷ rest)) ≡ found (c ++ (b'\n' ∷ [])) rest
unfolding read_slice
read_slice-found zero c rest f h = absurd (omega arith)
read_slice-found (suc room) [] rest f h = refl
read_slice-found (suc room) (x ∷ c) rest f h =
    rw (f.0) (rw (read_slice-found room c rest f.1 (omega arith)) refl)

read_slice-full :
    (room : ℕ) (c rest : Bytes)
    → Free is_lf c
    → room ≤ length c
    → read_slice room (c ++ (b'\n' ∷ rest)) ≡ full (take room c) (drop room c ++ (b'\n' ∷ rest))
unfolding read_slice
read_slice-full zero c rest f h = refl
read_slice-full (suc room) [] rest f h = absurd (omega arith)
read_slice-full (suc room) (x ∷ c) rest f h =
    rw (f.0) (rw (read_slice-full room c rest f.1 (omega arith)) refl)

pub buffer_size_pos : 0 < buffer_size
unfolding buffer_size
buffer_size_pos = omega arith

finish_line-too_long :
    (max : ℕ) (e : Error) (buf : Bytes) → max + 2 < length buf → finish_line max e buf ≡ err e
finish_line-too_long max e buf h = ground (arith, length-trim_line buf)

full_line :
    (buf c rest : Bytes)
    → (buf ++ take buffer_size c) ++ (drop buffer_size c ++ rest) ≡ buf ++ (c ++ rest)
full_line buf c rest =
    append_assoc buf (take buffer_size c) (drop buffer_size c ++ rest)
    ∙ ap (λ s. buf ++ s)
        (sym (append_assoc (take buffer_size c) (drop buffer_size c) rest)
          ∙ ap (λ s. s ++ rest) (take-append-drop buffer_size c))

split_size :
    (buf c : Bytes)
    → length buf + length c ≡ length (buf ++ take buffer_size c) + length (drop buffer_size c)
split_size buf c = omega (
  arith,
  length-append {0} buf (take buffer_size c),
  length-append {0} (take buffer_size c) (drop buffer_size c),
  ap length (take-append-drop buffer_size c),
)

taken_size : (c : Bytes) (n : ℕ) → n ≤ length c → length (take n c) ≡ n
taken_size c n h = omega (
  arith,
  length-append {0} (take n c) (drop n c),
  length-drop {0} n c,
  ap length (take-append-drop n c),
)

-- The chunks make up the line: the result is that of the whole line at once.
pub read_chunks-line :
    (fuel max : ℕ) (e : Error) (en : Ending) (buf c rest : Bytes)
    → Free is_lf c
    → length c < fuel
    → (read_chunks fuel max e en buf (c ++ (b'\n' ∷ rest))).1
      ≡ finish_line max e (buf ++ (c ++ (b'\n' ∷ [])))
unfolding read_chunks
read_chunks-line zero max e en buf c rest f h = absurd (omega arith)
read_chunks-line (suc fuel) max e en buf c rest f h =
    elim (Bool-cases (ltb (length c) buffer_size)) [
      | inl short ↦ rw (read_slice-found buffer_size c rest f (ltb→lt _ _ short), read_chunks) refl
      | inr long ↦
          let more =
            read_chunks-line fuel max e en (buf ++ take buffer_size c) (drop buffer_size c) rest
              (Free-drop is_lf buffer_size c f)
              (omega
                (arith, length-drop {0} buffer_size c, buffer_size_pos, not_ltb→le _ _ long)) in
          rw (read_slice-full buffer_size c rest f (not_ltb→le _ _ long), read_chunks)
            (elim (Bool-cases (ltb (max + 1) (length (buf ++ take buffer_size c)))) [
              | inl over ↦ rw over (
                  sym (
                    finish_line-too_long max e _ (
                      omega (
                        arith,
                        ltb→lt _ _ over,
                        not_ltb→le _ _ long,
                        length-append {0} buf (take buffer_size c),
                        taken_size c buffer_size (not_ltb→le _ _ long),
                        length-append {0} buf (c ++ (b'\n' ∷ [])),
                        length-append {0} c (b'\n' ∷ []),
                      ))))
              | inr fits ↦ rw fits (more ∙ ap (finish_line max e) (full_line buf c (b'\n' ∷ [])))
            ])
    ]

-- A line that the early test lets pass leaves the stream behind its line feed.
pub read_chunks-rest :
    (fuel max : ℕ) (e : Error) (en : Ending) (buf c rest : Bytes)
    → Free is_lf c
    → length c < fuel
    → length buf + length c ≤ max + 1
    → (read_chunks fuel max e en buf (c ++ (b'\n' ∷ rest))).0 ≡ rest
unfolding read_chunks
read_chunks-rest zero max e en buf c rest f h room = absurd (omega arith)
read_chunks-rest (suc fuel) max e en buf c rest f h room =
    elim (Bool-cases (ltb (length c) buffer_size)) [
      | inl short ↦ rw (read_slice-found buffer_size c rest f (ltb→lt _ _ short), read_chunks) refl
      | inr long ↦
          let more =
            read_chunks-rest fuel max e en (buf ++ take buffer_size c) (drop buffer_size c) rest
              (Free-drop is_lf buffer_size c f)
              (omega (arith, length-drop {0} buffer_size c, buffer_size_pos, not_ltb→le _ _ long))
              (omega (arith, split_size buf c)) in
          rw (read_slice-full buffer_size c rest f (not_ltb→le _ _ long), read_chunks)
            (ground (arith, more, split_size buf c))
    ]

-- `bytes.TrimSuffix` of one carriage return.
abbrev pub strip_cr : Bytes → Bytes
strip_cr [] = []
strip_cr (c ∷ []) = if nat_eq c b'\r' then [] else c ∷ []
strip_cr (c ∷ d ∷ s) = c ∷ strip_cr (d ∷ s)

pub trim_line-lf : (c : Bytes) → Free is_lf c → trim_line (c ++ (b'\n' ∷ [])) ≡ strip_cr c
unfolding trim_line
trim_line-lf [] f = refl
trim_line-lf (c ∷ []) f = ground (arith, f)
trim_line-lf (c ∷ d ∷ []) f = ap (λ t. c ∷ t) (trim_line-lf (d ∷ []) f.1)
trim_line-lf (c ∷ d ∷ e ∷ s) f = ap (λ t. c ∷ t) (trim_line-lf (d ∷ e ∷ s) f.1)
