-- ===== src/Wire/Progress.antt =====
-- The fuel of the reader's loops is enough, and a read that succeeds takes bytes.
use ami.Base.{
  ℕ, zero, suc, ◌+◌, ◌≤◌, ◌<◌, ◌≡◌, refl, inl, inr, Bool, true, false, [], ◌∷◌, ◌++◌, Bytes, ltb,
  length, nat_eq, if◌then◌else◌, Bool-cases, Outcome, ok, err, arith,
}
use ami.Wire.Types.{Error}
use ami.Wire.Lines.{
  Reader, Ending, Slice, found, full, ended, prepend, read_slice, end_error, finish_line,
  read_chunks, buffer_size, touched, read_line,
}
use ami.Wire.LineLaws.{buffer_size_pos}
use ami.Wire.Reader.{proceed, inner_line, no_eof}

abbrev pub is_stuck : Error → Bool
is_stuck Error.stuck = true
is_stuck e = false

-- The bytes of a slice and of what it leaves are those of the stream.
abbrev Splits : ℕ → ℕ → Slice → Type 0
Splits n room (found frag rest) = (length frag + length rest ≡ n) × (0 < length frag)
Splits n room (full frag rest) = (length frag + length rest ≡ n) × (length frag ≡ room)
Splits n room (ended frag) = Unit

prepend-Splits :
    (n room c : ℕ) (s : Slice) → Splits n room s → Splits (suc n) (suc room) (prepend c s)
prepend-Splits n room c (found frag rest) h = (omega (arith, h.0), omega arith)
prepend-Splits n room c (full frag rest) h = (omega (arith, h.0), omega (arith, h.1))
prepend-Splits n room c (ended frag) h = tt

read_slice-Splits : (room : ℕ) (s : Bytes) → Splits (length s) room (read_slice room s)
unfolding read_slice
read_slice-Splits zero s = (omega arith, refl)
read_slice-Splits (suc room) [] = tt
read_slice-Splits (suc room) (c ∷ s) = elim (Bool-cases (nat_eq c b'\n')) [
  | inl e ↦ rw e (omega arith, omega arith)
  | inr e ↦ rw e (prepend-Splits (length s) room c (read_slice room s) (read_slice-Splits room s))
]

-- A result that is not `stuck`, and when it is a success, a stream shorter than `n`.
abbrev Shrinks : {A : Type 0} → ℕ → Bytes × Outcome Error A → Type 0
Shrinks n (left, ok a) = length left < n
Shrinks n (left, err e) = is_stuck e ≡ false

finish_line-Shrinks :
    (n max : ℕ) (e : Error) (buf rest : Bytes)
    → is_stuck e ≡ false
    → length rest < n
    → Shrinks n (rest, finish_line max e buf)
finish_line-Shrinks n max e buf rest h less = ground arith

end_error-is_stuck : (en : Ending) (buf : Bytes) → is_stuck (end_error en buf) ≡ false
end_error-is_stuck Ending.failed buf = refl
end_error-is_stuck Ending.closed [] = refl
end_error-is_stuck Ending.closed (c ∷ buf) = refl

Shrinks-mono :
    {A : Type 0} (n k : ℕ) (o : Bytes × Outcome Error A) → n ≤ k → Shrinks n o → Shrinks k o
Shrinks-mono n k (left, ok a) h s = omega arith
Shrinks-mono n k (left, err e) h s = s

read_chunks-Shrinks :
    (fuel max : ℕ) (e : Error) (en : Ending) (buf s : Bytes)
    → is_stuck e ≡ false
    → length s < fuel
    → Shrinks (length s) (read_chunks fuel max e en buf s)
unfolding read_chunks
read_chunks-Shrinks zero max e en buf s h less = absurd (omega arith)
read_chunks-Shrinks (suc fuel) max e en buf s h less =
    by_slice (read_slice buffer_size s) (read_slice-Splits buffer_size s)
      (λ frag rest. read_chunks-Shrinks fuel max e en (buf ++ frag) rest h)
  where
    by_slice :
        (t : Slice)
        → Splits (length s) buffer_size t
        → ((frag rest : Bytes)
            → length rest < fuel
            → Shrinks (length rest) (read_chunks fuel max e en (buf ++ frag) rest))
        → Shrinks {A = Bytes × ℕ} (length s) (elim t [
          | found frag rest ↦ (rest, finish_line max e (buf ++ frag))
          | full frag rest ↦
              let more = read_chunks fuel max e en (buf ++ frag) rest in
              if ltb (max + 1) (length (buf ++ frag)) then (rest, err e) else more
          | ended frag ↦ ([], err (end_error en (buf ++ frag)))
        ])
    by_slice (found frag rest) p ih =
        finish_line-Shrinks (length s) max e (buf ++ frag) rest h (omega (arith, p.0, p.1))
    by_slice (full frag rest) p ih = elim (Bool-cases (ltb (max + 1) (length (buf ++ frag)))) [
      | inl over ↦ rw over h
      | inr fits ↦ rw fits (
          Shrinks-mono (length rest) (length s) _ (omega (arith, p.0))
            (ih frag rest (omega (arith, p.0, p.1, buffer_size_pos))))
    ]
    by_slice (ended frag) p ih = end_error-is_stuck en (buf ++ frag)

-- A read's result that is not `stuck`, and when it is a success, a reader with a stream shorter
-- than `n`.
unfoldable pub Ends : {A : Type 0} → ℕ → Reader × Outcome Error A → Type 0
Ends n (r, ok a) = length r.source < n
Ends n (r, err e) = is_stuck e ≡ false

Shrinks-Ends :
    {A : Type 0} (n : ℕ) (r : Reader) (o : Bytes × Outcome Error A)
    → Shrinks n o
    → Ends n (record r { source = o.0 }, o.1)
unfolding Ends
Shrinks-Ends n r (left, ok a) h = h
Shrinks-Ends n r (left, err e) h = h

pub Ends-mono : {A : Type 0} (n k : ℕ) (o : Reader × Outcome Error A) → n ≤ k → Ends n o → Ends k o
unfolding Ends
Ends-mono n k (r, ok a) h s = omega arith
Ends-mono n k (r, err e) h s = s

pub read_line-Ends :
    (r : Reader) (max : ℕ) (e : Error)
    → is_stuck e ≡ false
    → Ends (length r.source) (read_line r max e)
unfolding read_line
read_line-Ends r max e h =
    Shrinks-Ends (length r.source) (touched r) _
      (read_chunks-Shrinks (length r.source + 1) max e r.ending [] r.source h (omega arith))

pub no_eof-Ends :
    {A : Type 0} (n : ℕ) (r : Reader) (o : Outcome Error A) → Ends n (r, o) → Ends n (r, no_eof o)
unfolding Ends
no_eof-Ends n r (ok a) h = h
no_eof-Ends n r (err e) h = ground arith

pub ok-Ends : {A : Type 0} (n : ℕ) (r : Reader) (a : A) → length r.source < n → Ends n (r, ok a)
unfolding Ends
ok-Ends n r a h = h

pub inner_line-Ends : (r : Reader) → Ends (length r.source) (inner_line r)
inner_line-Ends r =
    no_eof-Ends (length r.source) (read_line r r.lim.max_line_bytes Error.line_too_long).0 _
      (read_line-Ends r r.lim.max_line_bytes Error.line_too_long refl)

pub bind-Ends :
    {A B : Type 0} (n : ℕ) (o : Reader × Outcome Error A)
    (k : A → Reader → Reader × Outcome Error B)
    → Ends n o
    → ((a : A) (r : Reader) → length r.source < n → Ends n (k a r))
    → Ends n (proceed k o)
unfolding Ends
bind-Ends n (r, ok a) k h f = f a r h
bind-Ends n (r, err e) k h f = h

-- A pure step and what follows it.
pub lift-Ends :
    {A B : Type 0} (n : ℕ) (r : Reader) (o : Outcome Error A)
    (k : A → Reader → Reader × Outcome Error B)
    → length r.source < n
    → Ends n (r, o)
    → ((a : A) → Ends n (k a r))
    → Ends n (proceed k (r, o))
unfolding Ends
lift-Ends n r (ok a) k less h f = f a
lift-Ends n r (err e) k less h f = h
