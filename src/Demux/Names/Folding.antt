-- ===== src/Demux/Names/Folding.antt =====
-- `fold` is the byte-wise lowering, and a registered set is its names folded, within the bounds.
use ami.Base.{
  ℕ, ◌+◌, ◌≤◌, ◌≡◌, refl, false, inl, inr, List, [], ◌∷◌, ◌++◌, map, some, arith, Bytes, length,
  take, drop, nat_eq, ok, Bool-cases, Outcome-cases,
}
use ami.Demux.Types.{Limits}
use ami.Demux.Names.{lower, first_upper, fold, fold_names, fold_set, is_empty}

lower-lower : (c : ℕ) → lower (lower c) ≡ lower c
lower-lower c = ground arith

-- The bytes in front of the first uppercase letter are as they would be lowered.
lower-first_upper :
    (s : Bytes) → take (first_upper s) s ++ map lower (drop (first_upper s) s) ≡ map lower s
unfolding first_upper
lower-first_upper [] = refl
lower-first_upper (c ∷ s) = ground (arith, lower-first_upper s)

first_upper_all : (s : Bytes) → first_upper s ≡ length s → map lower s ≡ s
unfolding first_upper
first_upper_all [] h = refl
first_upper_all (c ∷ s) h = ground (arith, first_upper_all s)

-- `fold`, with its early return and its copy, lowers every byte of a string.
pub fold-lower : (s : Bytes) → fold s ≡ map lower s
unfolding fold
fold-lower s = elim (Bool-cases (nat_eq (first_upper s) (length s))) [
  | inl all ↦ ground (arith, first_upper_all s)
  | inr some_upper ↦ ground (arith, lower-first_upper s)
]

lower_twice : (s : Bytes) → map lower (map lower s) ≡ map lower s
lower_twice [] = refl
lower_twice (c ∷ s) = ground (arith, lower-lower c, lower_twice s)

-- Folding a folded string changes nothing.
pub fold-fold : (s : Bytes) → fold (fold s) ≡ fold s
fold-fold s = rw (fold-lower s) (rw (fold-lower (map lower s)) (lower_twice s))

abbrev pub sum_lengths : List Bytes → ℕ
sum_lengths [] = 0
sum_lengths (n ∷ names) = length n + sum_lengths names

-- No name is empty.
abbrev pub NonEmpty : List Bytes → Type 0
NonEmpty [] = Unit
NonEmpty (n ∷ names) = (is_empty n ≡ false) × NonEmpty names

fold_names-ok :
    (lim : Limits) (bytes : ℕ) (names set : List Bytes)
    → bytes ≤ lim.max_matcher_bytes
    → fold_names lim bytes names ≡ ok set
    → (set ≡ map fold names) × (bytes + sum_lengths names ≤ lim.max_matcher_bytes) × NonEmpty names
unfolding fold_names
fold_names-ok lim bytes [] set room h = (ground arith, omega arith, tt)
fold_names-ok lim bytes (n ∷ names) set room h =
    elim (Outcome-cases (fold_names lim (bytes + length n) names)) [
      | inr (e, refused) ↦ absurd (ground (arith, refused))
      | inl (rest, folded) ↦
          let within : bytes + length n ≤ lim.max_matcher_bytes = ground (arith, folded) in
          let (same, room', full) = fold_names-ok lim (bytes + length n) names rest within folded in
          (ground (arith, folded, same), omega (arith, room'), (ground (arith, folded), full))
    ]

-- A set that `foldSet` registers holds the names folded; they are no more than the limit on names,
-- their bytes no more than the limit on bytes, and none is empty.
pub fold_set-ok :
    (lim : Limits) (names set : List Bytes)
    → fold_set lim names ≡ ok (some set)
    → (set ≡ map fold names)
      × (length names ≤ lim.max_matcher_names)
      × (sum_lengths names ≤ lim.max_matcher_bytes)
      × NonEmpty names
unfolding fold_set
fold_set-ok lim [] set h = absurd (cc)
fold_set-ok lim (n ∷ names) set h = elim (Outcome-cases (fold_names lim 0 (n ∷ names))) [
  | inr (e, refused) ↦ absurd (ground (arith, refused))
  | inl (rest, folded) ↦
      let (same, room, full) = fold_names-ok lim 0 (n ∷ names) rest (omega arith) folded in
      (ground (arith, folded, same), ground (arith, folded), omega (arith, room), full)
]
