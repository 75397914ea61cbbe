-- ===== src/Wire/Endings.antt =====
-- Every read of a message comes to an end.
use ami.Base.{
  ℕ, zero, suc, ◌+◌, ◌<◌, refl, inl, inr, Bool, true, false, List, [], ◌∷◌, Option, some, none,
  Bytes, length, Bool-cases, Outcome, arith,
}
use ami.Wire.Types.{Field, Error}
use ami.Wire.Folding.{equal_fold}
use ami.Wire.Fields.{
  split_field, Msg, no_fields, add, add_header, output_name, field_of, cut_colon, add_output,
}
use ami.Wire.Lines.{Reader, read_line}
use ami.Wire.Reader.{
  proceed, inner_line, message_charge, take_padding, read_start, complete, read_body, cut_suffix,
  trailer_if, end_command, output, last_output, end_legacy, read_legacy, is_legacy, read_message,
  start_line, body_line, legacy_blank, legacy_output, legacy_line, message_rest,
}
use ami.Wire.Progress.{
  ok-Ends, Ends, Ends-mono, inner_line-Ends, bind-Ends, lift-Ends, read_line-Ends,
}

message_charge-Ends :
    (n raw : ℕ) (r : Reader) (m : Msg) → length r.source < n → Ends n (message_charge m raw r)
unfolding Ends
message_charge-Ends n raw r m h = ground arith

complete-Ends :
    (n raw : ℕ) (r : Reader) (m : Msg)
    → length r.source < n
    → Ends n (proceed complete (message_charge m raw r))
complete-Ends n raw r m h =
    bind-Ends n (message_charge m raw r) complete (message_charge-Ends n raw r m h)
      (λ m' r' less. ok-Ends n _ m'.fields less)

split_field-Ends :
    (n : ℕ) (r : Reader) (s : Bytes) → length r.source < n → Ends n (r, split_field s)
unfolding split_field Ends
split_field-Ends n r s h = by_cut (cut_colon s)
  where
    by_cut : (o : Option (Bytes × Bytes)) → Ends n (r, field_of o)
    by_cut none = refl
    by_cut (some ([], value)) = refl
    by_cut (some (c ∷ key, value)) = h

add_header-Ends :
    (n raw : ℕ) (r : Reader) (m : Msg) (f : Field)
    → length r.source < n
    → Ends n (r, add_header r.lim m f raw)
unfolding add_header Ends
add_header-Ends n raw r m f h = ground arith

add_output-Ends :
    (n raw : ℕ) (r : Reader) (m : Msg) (f : Field)
    → length r.source < n
    → Ends n (r, add_output r.lim m f raw)
unfolding add_output Ends
add_output-Ends n raw r m f h = ground arith

add-Ends :
    (n raw : ℕ) (r : Reader) (m : Msg) (f : Field)
    → length r.source < n
    → Ends n (r, add r.lim m f raw)
unfolding add
add-Ends n raw r m f h = elim (Bool-cases (equal_fold f.key output_name)) [
  | inl e ↦ rw e (add_output-Ends n raw r m f h)
  | inr e ↦ rw e (add_header-Ends n raw r m f h)
]

body_line-Ends :
    (n : ℕ) (next : Msg → Reader → Reader × Outcome Error (List Field)) (m : Msg) (l : Bytes × ℕ)
    (r : Reader)
    → length r.source < n
    → ((m' : Msg) → Ends n (next m' r))
    → Ends n (body_line next m l r)
body_line-Ends n next m ([], raw) r less h = complete-Ends n raw r m less
body_line-Ends n next m (c ∷ cs, raw) r less h =
    lift-Ends n r (split_field (c ∷ cs))
      (λ (f : Field) (s : Reader). proceed next (s, add s.lim m f raw)) less
      (split_field-Ends n r (c ∷ cs) less)
      (λ f. lift-Ends n r (add r.lim m f raw) next less (add-Ends n raw r m f less) h)

read_body-Ends :
    (fuel : ℕ) (m : Msg) (r : Reader)
    → length r.source < fuel
    → Ends (length r.source) (read_body fuel m r)
unfolding read_body
read_body-Ends zero m r less = absurd (omega arith)
read_body-Ends (suc fuel) m r less =
    bind-Ends (length r.source) (inner_line r) (body_line (read_body fuel) m) (inner_line-Ends r)
      (λ l r1 less1. body_line-Ends (length r.source) (read_body fuel) m l r1 less1 (λ m'.
        Ends-mono (length r1.source) (length r.source) _ (omega (arith, less1))
          (read_body-Ends fuel m' r1 (omega (arith, less1)))))

last_output-Ends :
    (n raw : ℕ) (r : Reader) (m : Msg) (front : Bytes)
    → length r.source < n
    → Ends n (last_output m front raw r)
unfolding last_output
last_output-Ends n raw r m [] h = message_charge-Ends n raw r m h
last_output-Ends n raw r m (c ∷ front) h = add_output-Ends n raw r m (output (c ∷ front)) h

legacy_blank-Ends :
    (n : ℕ) (m : Msg) (l : Bytes × ℕ) (r : Reader)
    → length r.source < n
    → Ends n (legacy_blank m l r)
legacy_blank-Ends n m ([], raw) r less = complete-Ends n raw r m less
legacy_blank-Ends n m (c ∷ cs, raw) r less = unfold Ends in refl

end_legacy-Ends : (n : ℕ) (r : Reader) (m : Msg) → length r.source < n → Ends n (end_legacy m r)
unfolding end_legacy
end_legacy-Ends n r m h =
    bind-Ends n (inner_line r) (legacy_blank m)
      (Ends-mono (length r.source) n _ (omega arith) (inner_line-Ends r))
      (λ l r1 less1. legacy_blank-Ends n m l r1 less1)

legacy_output-Ends :
    (n raw : ℕ) (next : Bool → Msg → Reader → Reader × Outcome Error (List Field)) (m : Msg)
    (content : Bytes) (o : Option Bytes) (r : Reader)
    → length r.source < n
    → ((headers : Bool) (m' : Msg) → Ends n (next headers m' r))
    → Ends n (legacy_output next m content raw o r)
legacy_output-Ends n raw next m content none r less h =
    lift-Ends n r (add_output r.lim m (output content) raw) (next false) less
      (add_output-Ends n raw r m (output content) less) (h false)
legacy_output-Ends n raw next m content (some front) r less h =
    bind-Ends n (last_output m front raw r) end_legacy (last_output-Ends n raw r m front less)
      (λ m' r' less'. end_legacy-Ends n r' m' less')

legacy_line-Ends :
    (n raw : ℕ) (next : Bool → Msg → Reader → Reader × Outcome Error (List Field)) (m : Msg)
    (content : Bytes) (o : Option Field) (r : Reader)
    → length r.source < n
    → ((headers : Bool) (m' : Msg) → Ends n (next headers m' r))
    → Ends n (legacy_line next m content raw o r)
legacy_line-Ends n raw next m content none r less h =
    legacy_output-Ends n raw next m content (cut_suffix content end_command) r less h
legacy_line-Ends n raw next m content (some f) r less h =
    lift-Ends n r (add_header r.lim m f raw) (next true) less (add_header-Ends n raw r m f less)
      (h true)

read_legacy-Ends :
    (fuel : ℕ) (headers : Bool) (m : Msg) (r : Reader)
    → length r.source < fuel
    → Ends (length r.source) (read_legacy fuel headers m r)
unfolding read_legacy
read_legacy-Ends zero headers m r less = absurd (omega arith)
read_legacy-Ends (suc fuel) headers m r less =
    bind-Ends (length r.source) (inner_line r) _ (inner_line-Ends r) (λ l r1 less1.
      legacy_line-Ends (length r.source) l.1 (read_legacy fuel) m l.0 (trailer_if headers l.0) r1
        less1
        (λ headers' m'.
          Ends-mono (length r1.source) (length r.source) _ (omega (arith, less1))
            (read_legacy-Ends fuel headers' m' r1 (omega (arith, less1)))))

take_padding-Ends : (n raw : ℕ) (r : Reader) → length r.source < n → Ends n (take_padding raw r)
unfolding take_padding Ends
take_padding-Ends n raw r h = ground arith

start_line-Ends :
    (n : ℕ) (next : Reader → Reader × Outcome Error (Bytes × ℕ)) (l : Bytes × ℕ) (r : Reader)
    → length r.source < n
    → ((r' : Reader) → length r'.source < n → Ends n (next r'))
    → Ends n (start_line next l r)
start_line-Ends n next (c ∷ cs, raw) r less h = unfold Ends in less
start_line-Ends n next ([], raw) r less h =
    bind-Ends n (take_padding raw r) (λ u. next) (take_padding-Ends n raw r less)
      (λ u r' less'. h r' less')

read_start-Ends :
    (fuel : ℕ) (r : Reader) → length r.source < fuel → Ends (length r.source) (read_start fuel r)
unfolding read_start
read_start-Ends zero r less = absurd (omega arith)
read_start-Ends (suc fuel) r less =
    bind-Ends (length r.source) (read_line r r.lim.max_line_bytes Error.line_too_long)
      (start_line (read_start fuel))
      (read_line-Ends r r.lim.max_line_bytes Error.line_too_long refl)
      (λ l r1 less1. start_line-Ends (length r.source) (read_start fuel) l r1 less1 (λ r' less'.
        Ends-mono (length r'.source) (length r.source) _ (omega (arith, less'))
          (read_start-Ends fuel r' (omega (arith, less')))))

message_rest-Ends :
    (fuel : ℕ) (f : Field) (m : Msg) (r : Reader)
    → length r.source < fuel
    → Ends (length r.source) (message_rest fuel f m r)
message_rest-Ends fuel f m r less = elim (Bool-cases (is_legacy f)) [
  | inl e ↦ rw e (read_legacy-Ends fuel true m r less)
  | inr e ↦ rw e (read_body-Ends fuel m r less)
]

-- On every stream, however it is cut and however it ends, `ReadMessage` comes to an end: it fails
-- with one of the errors of the source, never for want of fuel, or it returns a message and has
-- taken a byte of the stream at least.
pub read_message-Ends : (r : Reader) → Ends (length r.source) (read_message r)
unfolding read_message
read_message-Ends r =
    bind-Ends n (read_start (n + 1) r) _ (read_start-Ends (n + 1) r (omega arith)) (λ l r1 less1.
      lift-Ends n r1 (split_field l.0)
        (λ (f : Field) (s : Reader).
          proceed (message_rest (n + 1) f) (s, add s.lim no_fields f l.1))
        less1 (split_field-Ends n r1 l.0 less1)
        (λ f.
          lift-Ends n r1 (add r1.lim no_fields f l.1) (message_rest (n + 1) f) less1
            (add-Ends n l.1 r1 no_fields f less1)
            (λ m.
              Ends-mono (length r1.source) n _ (omega (arith, less1))
                (message_rest-Ends (n + 1) f m r1 (omega (arith, less1))))))
  where
    n : ℕ
    n = length r.source
