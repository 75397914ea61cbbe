-- ===== src/Wire/Folding.antt =====
-- `strings.EqualFold` of a text against an ASCII name. Outside ASCII, simple case folding gives a
-- partner to two letters only: U+017F (bytes 0xC5 0xBF) to `s`, and U+212A (bytes 0xE2 0x84 0xAA) to `k`.
use ami.Base.{ℕ, ◌+◌, Bool, true, false, ◌&&◌, ◌||◌, [], ◌∷◌, Bytes, nat_eq, leb, if◌then◌else◌}

abbrev pub lower : ℕ → ℕ
lower c = if leb b'A' c && leb c b'Z' then c + 32 else c

abbrev long_s : ℕ → ℕ → Bool
long_s a b = nat_eq a 0xC5 && nat_eq b 0xBF

abbrev kelvin : ℕ → ℕ → ℕ → Bool
kelvin a b c = nat_eq a 0xE2 && nat_eq b 0x84 && nat_eq c 0xAA

-- The second text is the ASCII name.
unfoldable pub equal_fold : Bytes → Bytes → Bool
equal_fold [] [] = true
equal_fold [] (n ∷ ns) = false
equal_fold (a ∷ as') [] = false
equal_fold (a ∷ []) (n ∷ ns) = nat_eq (lower a) (lower n) && equal_fold [] ns
equal_fold (a ∷ b ∷ []) (n ∷ ns) =
    (nat_eq (lower a) (lower n) && equal_fold (b ∷ []) ns)
    || (nat_eq (lower n) b's' && long_s a b && equal_fold [] ns)
equal_fold (a ∷ b ∷ c ∷ rest) (n ∷ ns) =
    (nat_eq (lower a) (lower n) && equal_fold (b ∷ c ∷ rest) ns)
    || (nat_eq (lower n) b's' && long_s a b && equal_fold (c ∷ rest) ns)
    || (nat_eq (lower n) b'k' && kelvin a b c && equal_fold rest ns)
