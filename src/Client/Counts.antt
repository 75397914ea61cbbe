-- ===== src/Client/Counts.antt =====
-- `countExtractor` of dispatch.go.
pub mod Declared
use Prim.Native.Nat.{◌*◌, ◌^◌}
use ami.Base.{
  ℕ, zero, suc, ◌+◌, ◌-◌, Bool, true, false, not, ◌&&◌, ◌||◌, List, [], ◌∷◌, ◌++◌, Option, some,
  none, Bytes, nat_eq, leb, ltb, length, if◌then◌else◌,
}
use ami.Demux.Types.{ℤ, pos, negsuc, CountVerdict}
use ami.Client.Message.{Message, lookup_key}
use ami.Client.Classify.{equal_fold_ascii}

-- `unicode.IsSpace`, by the UTF-8 bytes of the character.
abbrev space_1 : ℕ → Bool
space_1 a = (leb 9 a && leb a 13) || nat_eq a 32

abbrev space_2 : ℕ → ℕ → Bool
space_2 a b = nat_eq a 0xC2 && (nat_eq b 0x85 || nat_eq b 0xA0)

abbrev space_3 : ℕ → ℕ → ℕ → Bool
space_3 a b c =
    (nat_eq a 0xE1 && nat_eq b 0x9A && nat_eq c 0x80)
    || (nat_eq a 0xE2
        && nat_eq b 0x80
        && ((leb 0x80 c && leb c 0x8A) || nat_eq c 0xA8 || nat_eq c 0xA9 || nat_eq c 0xAF))
    || (nat_eq a 0xE2 && nat_eq b 0x81 && nat_eq c 0x9F)
    || (nat_eq a 0xE3 && nat_eq b 0x80 && nat_eq c 0x80)

-- The text behind a white space at its start.
abbrev pub skip_first : Bytes → Option Bytes
skip_first [] = none
skip_first (a ∷ []) = if space_1 a then some [] else none
skip_first (a ∷ b ∷ []) = if space_1 a then some (b ∷ []) else if space_2 a b then some [] else none
skip_first (a ∷ b ∷ c ∷ s) =
    if space_1 a
    then some (b ∷ c ∷ s)
    else if space_2 a b
    then some (c ∷ s)
    else if space_3 a b c
    then some s
    else none

-- The same on a text that is turned round.
abbrev pub skip_last : Bytes → Option Bytes
skip_last [] = none
skip_last (c ∷ []) = if space_1 c then some [] else none
skip_last (c ∷ b ∷ []) = if space_1 c then some (b ∷ []) else if space_2 b c then some [] else none
skip_last (c ∷ b ∷ a ∷ s) =
    if space_1 c
    then some (b ∷ a ∷ s)
    else if space_2 b c
    then some (a ∷ s)
    else if space_3 a b c
    then some s
    else none

-- As long as there is one; each takes a byte at least.
unfoldable pub skip_all : (Bytes → Option Bytes) → ℕ → Bytes → Bytes
skip_all skip zero s = s
skip_all skip (suc fuel) s = elim (skip s) [ none ↦ s | some rest ↦ skip_all skip fuel rest ]

unfoldable pub turn : Bytes → Bytes → Bytes
turn [] done = done
turn (c ∷ s) done = turn s (c ∷ done)

-- `strings.TrimSpace`
unfoldable pub trim_space : Bytes → Bytes
trim_space s =
    let front = skip_all skip_first (length s) s in
    turn (skip_all skip_last (length front) (turn front [])) []

-- The number that decimal digits spell behind `n`.
unfoldable pub digits_value : ℕ → Bytes → Option ℕ
digits_value n [] = some n
digits_value n (c ∷ s) =
    let rest = digits_value (n * 10 + (c - b'0')) s in
    if leb b'0' c && leb c b'9' then rest else none

abbrev pub unsigned : Bytes → Option ℕ
unsigned [] = none
unsigned (c ∷ s) = digits_value 0 (c ∷ s)

abbrev pub positive : Option ℕ → Option ℤ
positive none = none
positive (some n) = if ltb n (2 ^ 63) then some (pos n) else none

abbrev pub negative : Option ℕ → Option ℤ
negative none = none
negative (some zero) = some (pos zero)
negative (some (suc n)) = if ltb n (2 ^ 63) then some (negsuc n) else none

-- `strconv.ParseInt` in base ten, with 64 bits.
unfoldable pub parse_int : Bytes → Option ℤ
parse_int [] = none
parse_int (c ∷ s) =
    if nat_eq c b'-'
    then negative (unsigned s)
    else if nat_eq c b'+'
    then positive (unsigned s)
    else positive (unsigned (c ∷ s))

abbrev pub verdict : Option ℤ → ℤ × CountVerdict
verdict none = (pos 0, CountVerdict.malformed)
verdict (some (negsuc n)) = (pos 0, CountVerdict.malformed)
verdict (some (pos n)) = (pos n, CountVerdict.declared)

-- The function that `countExtractor` returns, for ASCII field names.
unfoldable pub extract : List Bytes → Message → ℤ × CountVerdict
extract [] m = (pos 0, CountVerdict.absent)
extract (f ∷ fields) m =
    let rest = extract fields m in
    elim (lookup_key m f) [ none ↦ rest | some v ↦ verdict (parse_int (trim_space v)) ]

-- `countExtractor`
unfoldable pub count_extractor : List Bytes → Option (Message → ℤ × CountVerdict)
count_extractor [] = none
count_extractor (f ∷ fields) = some (extract (f ∷ fields))
