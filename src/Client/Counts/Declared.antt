-- ===== src/Client/Counts/Declared.antt =====
-- The count that a completion declares.
use Prim.Native.Nat.{◌*◌, ◌/◌, ◌%◌, ◌^◌}
use ami.Base.{
  ℕ, zero, suc, ◌+◌, ◌≤◌, ◌<◌, ◌≡◌, ◌↔◌, ◌⊎◌, ◌-◌, Bool, true, false, nat_eq, if◌then◌else◌, refl,
  ◌∙◌, inl, inr, List, [], ◌∷◌, ◌++◌, append-nil, Option, some, none, Bytes, ltb, lt→ltb, ltb→lt,
  length, Bool-cases, Option-cases, arith,
}
use ami.Demux.Types.{ℤ, pos, negsuc, CountVerdict}
use ami.Client.Message.{Message, lookup_key}
use ami.Client.Classify.{digits, format_uint}
use ami.Client.Classify.Ids.{parse_int-format_uint, unsigned-format_uint}
use ami.Client.Counts.{
  skip_first, skip_last, skip_all, turn, trim_space, digits_value, unsigned, parse_int, verdict,
  extract,
}

abbrev AllDigits : Bytes → Type 0
AllDigits [] = Unit
AllDigits (c ∷ s) = ((b'0' ≤ c) × (c ≤ b'9')) × AllDigits s

append-AllDigits : (s t : Bytes) → AllDigits s → AllDigits t → AllDigits (s ++ t)
append-AllDigits [] t h k = k
append-AllDigits (c ∷ s) t h k = (h.0, append-AllDigits s t h.1 k)

digits-AllDigits : (fuel n : ℕ) → AllDigits (digits fuel n)
unfolding digits
digits-AllDigits zero n = tt
digits-AllDigits (suc fuel) n = elim (Bool-cases (ltb n 10)) [
  | inl small ↦ rw small ((omega arith, omega (arith, ltb→lt n 10 small)), tt)
  | inr large ↦ rw large (
      append-AllDigits (digits fuel (n / 10)) ((b'0' + n % 10) ∷ [])
        (digits-AllDigits fuel (n / 10)) ((omega arith, omega arith), tt))
]

-- Neither a white space nor outside ASCII.
abbrev pub AllPlain : Bytes → Type 0
AllPlain [] = Unit
AllPlain (c ∷ s) = ((33 ≤ c) × (c ≤ 126)) × AllPlain s

AllDigits→AllPlain : (s : Bytes) → AllDigits s → AllPlain s
AllDigits→AllPlain [] h = tt
AllDigits→AllPlain (c ∷ s) h = ((omega (arith, h.0), omega (arith, h.0)), AllDigits→AllPlain s h.1)

first_plain : (s : Bytes) → AllPlain s → skip_first s ≡ none
first_plain [] h = refl
first_plain (a ∷ []) h = ground (arith, h)
first_plain (a ∷ b ∷ []) h = ground (arith, h)
first_plain (a ∷ b ∷ c ∷ s) h = ground (arith, h.0, h.1.0, h.1.1.0)

final_plain : (s : Bytes) → AllPlain s → skip_last s ≡ none
final_plain [] h = refl
final_plain (a ∷ []) h = ground (arith, h)
final_plain (a ∷ b ∷ []) h = ground (arith, h)
final_plain (a ∷ b ∷ c ∷ s) h = ground (arith, h.0, h.1.0, h.1.1.0)

skip_all-none :
    (skip : Bytes → Option Bytes) (fuel : ℕ) (s : Bytes) → skip s ≡ none → skip_all skip fuel s ≡ s
unfolding skip_all
skip_all-none skip zero s h = refl
skip_all-none skip (suc fuel) s h = rw (h, skip_all) refl

turn-AllPlain : (s t : Bytes) → AllPlain s → AllPlain t → AllPlain (turn s t)
unfolding turn
turn-AllPlain [] t h k = k
turn-AllPlain (c ∷ s) t h k = turn-AllPlain s (c ∷ t) h.1 (h.0, k)

turn-turn : (s t u : Bytes) → turn (turn s t) u ≡ turn t (s ++ u)
unfolding turn
turn-turn [] t u = refl
turn-turn (c ∷ s) t u = turn-turn s (c ∷ t) u

trim_space-plain : (s : Bytes) → AllPlain s → trim_space s ≡ s
unfolding trim_space
trim_space-plain s h = rw (skip_all-none skip_first (length s) s (first_plain s h)) (
    rw
      (skip_all-none skip_last (length s) (turn s [])
        (final_plain (turn s []) (turn-AllPlain s [] h tt)))
      (turn-turn s [] [] ∙ back s))
  where
    back : (t : Bytes) → turn [] (t ++ []) ≡ t
    back t = unfold turn in append-nil t

-- None of the fields is present.
abbrev pub AllAbsent : Message → List Bytes → Type 0
AllAbsent m [] = Unit
AllAbsent m (f ∷ fields) = (lookup_key m f ≡ none) × AllAbsent m fields

extract-skip :
    (m : Message) (before fields : List Bytes)
    → AllAbsent m before
    → extract (before ++ fields) m ≡ extract fields m
unfolding extract
extract-skip m [] fields h = refl
extract-skip m (f ∷ before) fields h = rw (h.0, extract) (extract-skip m before fields h.1)

format_uint-AllPlain : (n : ℕ) → AllPlain (format_uint n)
unfolding format_uint
format_uint-AllPlain n = AllDigits→AllPlain (digits (n + 1) n) (digits-AllDigits (n + 1) n)

-- A completion in which the first field present of those declared is a number in base ten below
-- 2 ^ 63 declares that number as the count of the list, whatever the fields behind it are.
pub extract-format_uint :
    (m : Message) (before : List Bytes) (f : Bytes) (rest : List Bytes) (n : ℕ)
    → AllAbsent m before
    → lookup_key m f ≡ some (format_uint n)
    → n < 2 ^ 63
    → extract (before ++ (f ∷ rest)) m ≡ (pos n, CountVerdict.declared)
unfolding extract
extract-format_uint m before f rest n absent present small =
    extract-skip m before (f ∷ rest) absent
    ∙ rw (present, extract)
        (rw (trim_space-plain (format_uint n) (format_uint-AllPlain n))
          (rw (parse_int-format_uint n) (rw (lt→ltb n (2 ^ 63) small) refl)))

-- Some byte is no digit.
abbrev pub HasStray : Bytes → Type 0
HasStray [] = ⊥
HasStray (c ∷ s) = ((c < b'0') ⊎ (b'9' < c)) ⊎ HasStray s

-- A value that is no count: none, a negative number, one that is too large, or a word with something
-- else than digits behind its first byte.
pub data IsMalformed : Bytes → Type 0 where
  empty : IsMalformed []
  below : (n : ℕ) → IsMalformed (b'-' ∷ format_uint (suc n))
  large : (n : ℕ) → 2 ^ 63 ≤ n → IsMalformed (format_uint n)
  stray : (c : ℕ) (s : Bytes) → AllPlain (c ∷ s) → HasStray s → IsMalformed (c ∷ s)

digits_value-HasStray : (n : ℕ) (s : Bytes) → HasStray s → digits_value n s ≡ none
unfolding digits_value
digits_value-HasStray n [] h = absurd h
digits_value-HasStray n (c ∷ s) (inl (inl low)) = ground (arith, low)
digits_value-HasStray n (c ∷ s) (inl (inr high)) = ground (arith, high)
digits_value-HasStray n (c ∷ s) (inr h) =
    ground (arith, digits_value-HasStray (n * 10 + (c - b'0')) s h)

unsigned-HasStray : (s : Bytes) → HasStray s → unsigned s ≡ none
unsigned-HasStray [] h = refl
unsigned-HasStray (c ∷ s) h = digits_value-HasStray 0 (c ∷ s) h

parse_int-HasStray : (c : ℕ) (s : Bytes) → HasStray s → parse_int (c ∷ s) ≡ none
unfolding parse_int
parse_int-HasStray c s h = elim (Bool-cases (nat_eq c b'-')) [
  | inl minus ↦ rw minus (rw (unsigned-HasStray s h) refl)
  | inr other ↦ elim (Bool-cases (nat_eq c b'+')) [
    | inl plus ↦ rw other (rw plus (rw (unsigned-HasStray s h) refl))
    | inr digit ↦ rw other (rw digit (rw (digits_value-HasStray 0 (c ∷ s) (inr h)) refl))
  ]
]

parse_int-below :
    (n : ℕ) → verdict (parse_int (b'-' ∷ format_uint (suc n))) ≡ (pos 0, CountVerdict.malformed)
unfolding parse_int
parse_int-below n = rw (unsigned-format_uint (suc n)) (either (ltb n (2 ^ 63)))
  where
    either :
        (b : Bool) → verdict (if b then some (negsuc n) else none) ≡ (pos 0, CountVerdict.malformed)
    either true = refl
    either false = refl

empty-verdict : verdict (parse_int (trim_space [])) ≡ (pos 0, CountVerdict.malformed)
unfolding trim_space skip_all turn parse_int
empty-verdict = refl

IsMalformed-verdict :
    (v : Bytes)
    → IsMalformed v
    → verdict (parse_int (trim_space v)) ≡ (pos 0, CountVerdict.malformed)
IsMalformed-verdict v IsMalformed.empty = empty-verdict
IsMalformed-verdict v (IsMalformed.below n) =
    rw
      (trim_space-plain (b'-' ∷ format_uint (suc n))
        ((omega arith, omega arith), format_uint-AllPlain (suc n)))
      (parse_int-below n)
IsMalformed-verdict v (IsMalformed.large n h) =
    rw (trim_space-plain (format_uint n) (format_uint-AllPlain n))
      (rw (parse_int-format_uint n) (ground (arith, h)))
IsMalformed-verdict v (IsMalformed.stray c s plain h) =
    rw (trim_space-plain (c ∷ s) plain) (rw (parse_int-HasStray c s h) refl)

-- A completion in which the first field present of those declared is no count: its value is empty, a
-- negative number, a number from 2 ^ 63 on, or a word of printable ASCII in which something else than a
-- digit stands behind the first byte. Then the count of the list is malformed, whatever the fields
-- behind it are: the value is neither skipped nor read as a count.
pub extract-IsMalformed :
    (m : Message) (before : List Bytes) (f : Bytes) (rest : List Bytes) (v : Bytes)
    → AllAbsent m before
    → lookup_key m f ≡ some v
    → IsMalformed v
    → extract (before ++ (f ∷ rest)) m ≡ (pos 0, CountVerdict.malformed)
unfolding extract
extract-IsMalformed m before f rest v absent present bad =
    extract-skip m before (f ∷ rest) absent ∙ rw (present, extract) (IsMalformed-verdict v bad)

-- `countExtractor` finds the count absent exactly when no declared field is present.
extract-AllAbsent :
    (m : Message) (fields : List Bytes)
    → ((extract fields m).1 ≡ CountVerdict.absent) ↔ AllAbsent m fields
unfolding extract
extract-AllAbsent m [] = (λ h. tt, λ h. refl)
extract-AllAbsent m (f ∷ fields) = elim (Option-cases (lookup_key m f)) [
  | inl e ↦
      rw (e, extract)
        (λ h. (refl, (extract-AllAbsent m fields).0 h), λ h. (extract-AllAbsent m fields).1 h.1)
  | inr (v, e) ↦
      rw (e, extract) (λ h. absurd (never (parse_int (trim_space v)) h), λ h. absurd (cc))
]
  where
    never : (o : Option ℤ) → (verdict o).1 ≡ CountVerdict.absent → ⊥
    never none h = absurd (cc)
    never (some (pos n)) h = absurd (cc)
    never (some (negsuc n)) h = absurd (cc)
