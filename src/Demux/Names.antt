-- ===== src/Demux/Names.antt =====
-- The name sets of internal/demux/demux.go: `fold` and `foldSet`.
pub mod Folding
use ami.Base.{
  ℕ, suc, ◌+◌, ◌-◌, Bool, true, false, ◌&&◌, ◌||◌, List, [], ◌∷◌, ◌++◌, map, Option, none, some,
  ltb, leb, nat_eq, ◌==◌, string_eq, if◌then◌else◌, Bytes, length, take, drop, Outcome, ok, err,
}
use ami.Demux.Types.{Limits, Error}

abbrev pub is_upper : ℕ → Bool
is_upper c = leb b'A' c && leb c b'Z'

abbrev pub lower : ℕ → ℕ
lower c = if is_upper c then c + (b'a' - b'A') else c

-- The first loop of `fold`: the index of the first uppercase letter, or the length.
pub first_upper : Bytes → ℕ
first_upper [] = 0
first_upper (c ∷ s) = if is_upper c then 0 else suc (first_upper s)

unfoldable pub fold : Bytes → Bytes
unfolding first_upper
fold s =
    let i = first_upper s in if nat_eq i (length s) then s else take i s ++ map lower (drop i s)

abbrev pub is_empty : Bytes → Bool
is_empty [] = true
is_empty (c ∷ s) = false

-- The loop of `foldSet`, with the bytes counted so far. A set holds its names in any order, so
-- that a name given twice may stand in it twice.
unfoldable pub fold_names : Limits → ℕ → List Bytes → Outcome Error (List Bytes)
unfolding fold
fold_names lim bytes [] = ok []
fold_names lim bytes (n ∷ names) =
    let rest = fold_names lim (bytes + length n) names in
    if is_empty n
    then err Error.invalid_options
    else if ltb lim.max_matcher_bytes (bytes + length n)
    then err Error.matcher_limit
    else elim rest [ ok set ↦ ok (fold n ∷ set) | err e ↦ err e ]

unfoldable pub fold_set : Limits → List Bytes → Outcome Error (Option (List Bytes))
unfolding fold_names
fold_set lim [] = ok none
fold_set lim (n ∷ names) =
    if ltb lim.max_matcher_names (length (n ∷ names))
    then err Error.matcher_limit
    else elim (fold_names lim 0 (n ∷ names)) [ ok set ↦ ok (some set) | err e ↦ err e ]

unfoldable pub contains : List Bytes → Bytes → Bool
contains [] n = false
contains (x ∷ set) n = x == n || contains set n

-- Indexing a nil map finds nothing.
unfoldable pub declares : Option (List Bytes) → Bytes → Bool
unfolding contains
declares none n = false
declares (some set) n = contains set n

-- A nil set matches every name.
unfoldable pub selects : Option (List Bytes) → Bytes → Bool
unfolding contains
selects none n = true
selects (some set) n = contains set n
