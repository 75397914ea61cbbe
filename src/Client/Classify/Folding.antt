-- ===== src/Client/Classify/Folding.antt =====
-- Names are compared as they are folded, and messages are charged as they are encoded.
use ami.Base.{
  suc, ◌≡◌, ◌↔◌, refl, ap, sym, ◌∙◌, Bool, true, false, List, [], ◌∷◌, ◌++◌, map, Bytes, nat_eq_iff,
  length, take, drop, bytes_eq, bytes_eq_iff, ◌||◌, some, ok, arith,
}
use ami.Demux.Types.{Limits}
use ami.Demux.Names.{fold, fold_set, contains}
use ami.Demux.Names.Folding.{fold-lower, fold_set-ok}
use ami.Wire.Types.{Field}
use ami.Wire.Folding.{lower}
use ami.Wire.Writer.{encode}
use ami.Wire.FieldLaws.{lines_size, length-encode}
use ami.Client.Message.{Message}
use ami.Client.Classify.{
  first_upper, fold_ascii, same_letters, equal_fold_ascii, fields_size, wire_size,
}

-- The letters in front of the first uppercase one are their own lowercase.
lowered : (s : Bytes) → take (first_upper s) s ++ map lower (drop (first_upper s) s) ≡ map lower s
unfolding first_upper
lowered [] = refl
lowered (c ∷ s) = ground (arith, lowered s)

untouched : (s : Bytes) → first_upper s ≡ length s → s ≡ map lower s
unfolding first_upper
untouched [] h = refl
untouched (c ∷ s) h = ground (arith, untouched s)

pub fold_ascii-lower : (s : Bytes) → fold_ascii s ≡ map lower s
unfolding fold_ascii
fold_ascii-lower s = ground (arith, lowered s, untouched s)

same_letters_iff :
    (a b : Bytes) → length a ≡ length b → (same_letters a b ≡ true) ↔ (map lower a ≡ map lower b)
unfolding same_letters
same_letters_iff [] [] h = ground arith
same_letters_iff [] (y ∷ b) h = absurd (omega (arith, h))
same_letters_iff (x ∷ a) [] h = absurd (omega (arith, h))
same_letters_iff (x ∷ a) (y ∷ b) h =
    ground (arith, same_letters_iff a b (omega (arith, h)), nat_eq_iff (lower x) (lower y))

length-lower : (s : Bytes) → length (map lower s) ≡ length s
length-lower [] = refl
length-lower (c ∷ s) = ap suc (length-lower s)

same_lengths : (a b : Bytes) → map lower a ≡ map lower b → length a ≡ length b
same_lengths a b e = sym (length-lower a) ∙ ap length e ∙ length-lower b

-- Two names are equal under ASCII case folding exactly when they are folded to the same name.
pub equal_fold_ascii-fold_ascii :
    (a b : Bytes) → (equal_fold_ascii a b ≡ true) ↔ (fold_ascii a ≡ fold_ascii b)
unfolding equal_fold_ascii
equal_fold_ascii-fold_ascii a b = rw (fold_ascii-lower a) (
    rw (fold_ascii-lower b) (
      λ h. (same_letters_iff a b (ground (arith, h))).0 (ground (arith, h)),
      λ e. ground (arith, (same_letters_iff a b (same_lengths a b e)).1 e, same_lengths a b e),
    ))

-- One of the declared names is the name, under ASCII case folding.
unfoldable pub is_declared : List Bytes → Bytes → Bool
is_declared [] name = false
is_declared (d ∷ names) name = equal_fold_ascii d name || is_declared names name

-- The session and the machine fold alike.
folds_alike : (s : Bytes) → fold s ≡ fold_ascii s
folds_alike s = fold-lower s ∙ sym (fold_ascii-lower s)

same_answer : (d name : Bytes) → bytes_eq (fold d) (fold_ascii name) ≡ equal_fold_ascii d name
same_answer d name = rw (folds_alike d) (
    ground
      (arith, bytes_eq_iff (fold_ascii d) (fold_ascii name), equal_fold_ascii-fold_ascii d name))

contains-folded :
    (names : List Bytes) (name : Bytes)
    → contains (map fold names) (fold_ascii name) ≡ is_declared names name
unfolding contains is_declared
contains-folded [] name = refl
contains-folded (d ∷ names) name = rw (same_answer d name) (rw (contains-folded names name) refl)

-- The machine registers declared names as a set, and the session folds the name of an event. The set
-- contains the folded name exactly when one of the names, as it was declared, is the name of the
-- event under ASCII case folding.
pub contains-is_declared :
    (lim : Limits) (names set : List Bytes) (name : Bytes)
    → fold_set lim names ≡ ok (some set)
    → contains set (fold_ascii name) ≡ is_declared names name
contains-is_declared lim names set name h =
    rw ((fold_set-ok lim names set h).0) (contains-folded names name)

-- The charge of a message is the length of the encoding that `AppendMessage` gives its fields.
wire_size-encode : (m : Message) → wire_size m ≡ length (encode m.fields)
unfolding wire_size
wire_size-encode m = omega (arith, length-encode m.fields, sizes m.fields)
  where
    sizes : (fs : List Field) → fields_size fs ≡ lines_size fs
    sizes [] = refl
    sizes (f ∷ fs) = omega (arith, sizes fs)
