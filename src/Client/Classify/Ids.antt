-- ===== src/Client/Classify/Ids.antt =====
-- The ActionIDs that a session issues, and decimal numbers.
use Prim.Native.Nat.{◌*◌, ◌/◌, ◌%◌}
use ami.Base.{
  ℕ, zero, suc, ◌+◌, ◌-◌, ◌≤◌, ◌<◌, ◌≡◌, ◌≢◌, refl, ap, sym, ◌∙◌, inl, inr, true, [], ◌∷◌, ◌++◌,
  Option, some, none, Bytes, ltb, ltb→lt, not_ltb→le, length, Bool-cases, arith,
}
use ami.Demux.Types.{Kind}
use ami.Client.Classify.{
  cut_prefix, kind_of, parse_action_id, digits, format_uint, kind_letter, new_action_id,
}
use ami.Client.Counts.{digits_value, positive, unsigned, parse_int}

-- The value of a text of digits goes on behind it.
abbrev continued : Option ℕ → Bytes → Option ℕ
continued none s = none
continued (some n) s = digits_value n s

digits_value-append :
    (n : ℕ) (s t : Bytes) → digits_value n (s ++ t) ≡ continued (digits_value n s) t
unfolding digits_value
digits_value-append n [] t = refl
digits_value-append n (c ∷ s) t = ground (arith, digits_value-append (n * 10 + (c - b'0')) s t)

last_digit : (n m : ℕ) → m < 10 → digits_value n ((b'0' + m) ∷ []) ≡ some (n * 10 + m)
unfolding digits_value
last_digit n m h = ground arith

digits_value-digits : (fuel n : ℕ) → n < fuel → digits_value 0 (digits fuel n) ≡ some n
unfolding digits
digits_value-digits zero n h = absurd (omega arith)
digits_value-digits (suc fuel) n h = elim (Bool-cases (ltb n 10)) [
  | inl small ↦ rw small (last_digit 0 n (ltb→lt n 10 small) ∙ ap some (omega arith))
  | inr large ↦
      let tenth : n / 10 < fuel = omega (arith, not_ltb→le n 10 large) in
      rw large (
        rw (digits_value-append 0 (digits fuel (n / 10)) ((b'0' + n % 10) ∷ [])) (
          rw (digits_value-digits fuel (n / 10) tenth)
            (last_digit (n / 10) (n % 10) (omega arith) ∙ ap some (omega arith))))
]

pub digits_value-format_uint : (n : ℕ) → digits_value 0 (format_uint n) ≡ some n
unfolding format_uint
digits_value-format_uint n = digits_value-digits (n + 1) n (omega arith)

-- A text that starts with a digit.
abbrev StartsDigit : Bytes → Type 0
StartsDigit [] = Unit
StartsDigit (c ∷ s) = (b'0' ≤ c) × (c ≤ b'9')

abbrev IsFull : Bytes → Type 0
IsFull s = StartsDigit s × (0 < length s)

append-IsFull : (s t : Bytes) → IsFull s → IsFull (s ++ t)
append-IsFull [] t h = absurd (omega (arith, h.1))
append-IsFull (c ∷ s) t h = (h.0, omega arith)

digits-IsFull : (fuel n : ℕ) → n < fuel → IsFull (digits fuel n)
unfolding digits
digits-IsFull zero n h = absurd (omega arith)
digits-IsFull (suc fuel) n h = elim (Bool-cases (ltb n 10)) [
  | inl small ↦ rw small ((omega arith, omega (arith, ltb→lt n 10 small)), omega arith)
  | inr large ↦ rw large (
      append-IsFull (digits fuel (n / 10)) _
        (digits-IsFull fuel (n / 10) (omega (arith, not_ltb→le n 10 large))))
]

format_uint-IsFull : (n : ℕ) → IsFull (format_uint n)
unfolding format_uint
format_uint-IsFull n = digits-IsFull (n + 1) n (omega arith)

parse_int-digits :
    (s : Bytes) (n : ℕ) → IsFull s → digits_value 0 s ≡ some n → parse_int s ≡ positive (some n)
unfolding parse_int
parse_int-digits [] n f h = absurd (omega (arith, f.1))
parse_int-digits (c ∷ s) n f h = ground (arith, f.0.0, f.0.1, h)

unsigned-digits : (s : Bytes) (n : ℕ) → IsFull s → digits_value 0 s ≡ some n → unsigned s ≡ some n
unsigned-digits [] n f h = absurd (omega (arith, f.1))
unsigned-digits (c ∷ s) n f h = h

pub unsigned-format_uint : (n : ℕ) → unsigned (format_uint n) ≡ some n
unsigned-format_uint n =
    unsigned-digits (format_uint n) n (format_uint-IsFull n) (digits_value-format_uint n)

-- A number printed in base ten is read back as itself below 2 ^ 63, and is refused from there on.
pub parse_int-format_uint : (n : ℕ) → parse_int (format_uint n) ≡ positive (some n)
parse_int-format_uint n =
    parse_int-digits (format_uint n) n (format_uint-IsFull n) (digits_value-format_uint n)

pub cut_prefix-append : (p s : Bytes) → cut_prefix (p ++ s) p ≡ some s
unfolding cut_prefix
cut_prefix-append [] [] = refl
cut_prefix-append [] (c ∷ s) = refl
cut_prefix-append (c ∷ p) s = ground (arith, cut_prefix-append p s)

kind_of-letter :
    (kind : Kind) (s : Bytes)
    → kind ≢ Kind.unset
    → 0 < length s
    → kind_of (some (kind_letter kind ∷ s)) ≡ (true, kind)
kind_of-letter kind [] k h = absurd (omega arith)
kind_of-letter Kind.request (c ∷ s) k h = refl
kind_of-letter Kind.list (c ∷ s) k h = refl
kind_of-letter Kind.unset (c ∷ s) k h = absurd (k refl)

-- A session recognises every ActionID that it issues as its own, with the kind that it was issued
-- for, whatever the prefix and the counter.
pub parse_action_id-new_action_id :
    (prefix : Bytes) (kind : Kind) (seq : ℕ)
    → kind ≢ Kind.unset
    → parse_action_id prefix (new_action_id prefix kind seq) ≡ (true, kind)
unfolding parse_action_id new_action_id
parse_action_id-new_action_id prefix kind seq k =
    rw (cut_prefix-append prefix (kind_letter kind ∷ format_uint seq))
      (kind_of-letter kind (format_uint seq) k (format_uint-IsFull seq).1)

some-injective : {A : Type 0} (a b : A) → ◌≡◌ {A = Option A} (some a) (some b) → a ≡ b
some-injective a b e = cc

tail-injective : (a b : ℕ) (s t : Bytes) → a ∷ s ≡ b ∷ t → s ≡ t
tail-injective a b s t e = cc

-- Two ActionIDs of a session are the same only when the counter was the same: no ActionID is issued
-- twice, for requests and lists alike.
pub new_action_id-injective :
    (prefix : Bytes) (k l : Kind) (m n : ℕ)
    → new_action_id prefix k m ≡ new_action_id prefix l n
    → m ≡ n
unfolding new_action_id
new_action_id-injective prefix k l m n e =
    let tails : kind_letter k ∷ format_uint m ≡ kind_letter l ∷ format_uint n = some-injective _ _ (
      sym (cut_prefix-append prefix (kind_letter k ∷ format_uint m))
      ∙ ap (λ s. cut_prefix s prefix) e
      ∙ cut_prefix-append prefix (kind_letter l ∷ format_uint n)) in
    some-injective m n (
      sym (digits_value-format_uint m)
      ∙ ap (digits_value 0) (tail-injective _ _ (format_uint m) (format_uint n) tails)
      ∙ digits_value-format_uint n)
