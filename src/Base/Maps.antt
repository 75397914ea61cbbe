-- ===== src/Base/Maps.antt =====
-- A Go map, as an association list in the order of insertion. Loops over a map take this order.
use Prim.Native.Nat.{◌≤◌, ℕ, ◌+◌}
use mathlib.Core.Path.{◌≡◌, refl, subst}
use mathlib.Core.Logic.{inl, inr}
use mathlib.Core.Bool.{false, Bool, true, ◌&&◌}
use mathlib.Core.List.{List, [], ◌∷◌}
use mathlib.Core.Option.{Option, none, some}
use native.Mathlib.Omega.{arith}
use ami.Base.Tests.{Key, ◌==◌, if◌then◌else◌, Bool-cases}

abbrev pub Map {ℓ κ} : Type ℓ → Type κ → Type (ℓ ⊔ κ)
Map K V = List (K × V)

module _ {ℓ κ} {K : Type ℓ} {V : Type κ} where
  abbrev pub keys : Map K V → List K
  keys [] = []
  keys ((k, v) ∷ m) = k ∷ keys m

  -- The sum of a charge over the values.
  abbrev pub total : (V → ℕ) → Map K V → ℕ
  total f [] = 0
  total f ((k, v) ∷ m) = f v + total f m

  abbrev pub every : (V → Bool) → Map K V → Bool
  every p [] = true
  every p ((k, v) ∷ m) = p v && every p m

  -- Of each key with its value.
  abbrev pub All {μ} : (K → V → Type μ) → Map K V → Type μ
  All P [] = Unit
  All P ((k, v) ∷ m) = P k v × All P m

  pub every-true :
      (P : K → V → Type 0) (p : V → Bool)
      → ((k : K) (v : V) → P k v → p v ≡ true)
      → (m : Map K V) → All P m
      → every p m ≡ true
  every-true P p h [] a = refl
  every-true P p h ((k, v) ∷ m) a = rw (h k v a.0) (every-true P p h m a.1)

  pub All-imp {μ ν} :
      (P : K → V → Type μ) (Q : K → V → Type ν)
      → ((k : K) (v : V) → P k v → Q k v)
      → (m : Map K V) → All P m
      → All Q m
  All-imp P Q h [] a = tt
  All-imp P Q h ((k, v) ∷ m) a = (h k v a.0, All-imp P Q h m a.1)

module _ {ℓ κ} {K : Type ℓ} {V : Type κ} ⦃e : Key K⦄ where
  unfoldable pub lookup : K → Map K V → Option V
  lookup k [] = none
  lookup k ((j, v) ∷ m) = if j == k then some v else lookup k m

  unfoldable pub delete : K → Map K V → Map K V
  delete k [] = []
  delete k ((j, w) ∷ m) = if j == k then m else (j, w) ∷ delete k m

  -- A key that is present keeps its place.
  unfoldable pub insert : K → V → Map K V → Map K V
  insert key value [] = (key, value) ∷ []
  insert key value ((j, w) ∷ rest) =
      if j == key then (key, value) ∷ rest else (j, w) ∷ insert key value rest

  pub lookup-insert :
      (k asked : K) (v : V) (m : Map K V)
      → lookup asked (insert k v m) ≡ (if k == asked then some v else lookup asked m)
  unfolding lookup insert
  lookup-insert k asked v [] = refl
  lookup-insert k asked v ((x, w) ∷ rest) =
      let hyp = lookup-insert k asked v rest in
      ground (arith, hyp, e.same_iff x asked, e.same_iff x k, e.same_iff k asked)

  pub total-insert :
      (f : V → ℕ) (k : K) (v old : V) (m : Map K V)
      → lookup k m ≡ some old
      → total f (insert k v m) + f old ≡ total f m + f v
  unfolding lookup insert
  total-insert f k v old [] h = ground arith
  total-insert f k v old ((j, w) ∷ m) h = ground (arith, total-insert f k v old m)

  pub total-insert_new :
      (f : V → ℕ) (k : K) (v : V) (m : Map K V)
      → lookup k m ≡ none
      → total f (insert k v m) ≡ total f m + f v
  unfolding lookup insert
  total-insert_new f k v [] h = omega arith
  total-insert_new f k v ((j, w) ∷ m) h = ground (arith, total-insert_new f k v m)

  pub total-delete :
      (f : V → ℕ) (k : K) (old : V) (m : Map K V)
      → lookup k m ≡ some old
      → total f (delete k m) + f old ≡ total f m
  unfolding lookup delete
  total-delete f k old [] h = ground arith
  total-delete f k old ((j, w) ∷ m) h = ground (arith, total-delete f k old m)

  pub All-insert {μ} :
      (P : K → V → Type μ) (k : K) (v : V) (m : Map K V) → P k v → All P m → All P (insert k v m)
  unfolding insert
  All-insert P k v [] p a = (p, tt)
  All-insert P k v ((j, w) ∷ m) p a = elim (Bool-cases (j == k)) [
    | inl same ↦ rw same (p, a.1)
    | inr other ↦ rw other (a.0, All-insert P k v m p a.1)
  ]

  pub All-delete {μ} : (P : K → V → Type μ) (k : K) (m : Map K V) → All P m → All P (delete k m)
  unfolding delete
  All-delete P k [] a = tt
  All-delete P k ((j, w) ∷ m) a = elim (Bool-cases (j == k)) [
    | inl same ↦ rw same a.1
    | inr other ↦ rw other (a.0, All-delete P k m a.1)
  ]

  pub All-lookup {μ} :
      (P : K → V → Type μ) (k : K) (v : V) (m : Map K V) → All P m → lookup k m ≡ some v → P k v
  unfolding lookup
  All-lookup P k v [] a h = absurd (cc)
  All-lookup P k v ((j, w) ∷ m) a h = elim (Bool-cases (j == k)) [
    | inl same ↦
        subst (λ x. P x v) ((e.same_iff j k).0 same)
          (subst (P j) {x = w} {y = v} (ground arith) a.0)
    | inr other ↦ All-lookup P k v m a.1 (rw other at h)
  ]

  pub lookup-delete_ne :
      (k j : K) (m : Map K V) → (j == k) ≡ false → lookup j (delete k m) ≡ lookup j m
  unfolding lookup delete
  lookup-delete_ne k j [] h = refl
  lookup-delete_ne k j ((i, w) ∷ m) h =
      ground (arith, e.same_iff i k, e.same_iff i j, e.same_iff j k, lookup-delete_ne k j m)

  pub insert-insert : (k : K) (v w : V) (m : Map K V) → insert k v (insert k w m) ≡ insert k v m
  unfolding insert
  insert-insert k v w [] = rw ((e.same_iff k k).1 refl)
  insert-insert k v w ((i, u) ∷ m) =
      ground (arith, e.same_iff k k, e.same_iff i k, insert-insert k v w m)

  -- No key stands twice, as in a Go map.
  abbrev pub Unique : Map K V → Type (ℓ ⊔ κ)
  Unique [] = Unit
  Unique ((k, v) ∷ m) = (lookup k m ≡ none) × Unique m

  lookup-delete_none : (k j : K) (m : Map K V) → lookup j m ≡ none → lookup j (delete k m) ≡ none
  unfolding lookup delete
  lookup-delete_none k j [] h = refl
  lookup-delete_none k j ((i, w) ∷ m) h = ground (arith, lookup-delete_none k j m)

  pub Unique-delete : (k : K) (m : Map K V) → Unique m → Unique (delete k m)
  unfolding delete
  Unique-delete k [] u = tt
  Unique-delete k ((i, w) ∷ m) u = elim (Bool-cases (i == k)) [
    | inl same ↦ rw same u.1
    | inr other ↦ rw other (lookup-delete_none k i m u.0, Unique-delete k m u.1)
  ]

  pub Unique-insert : (k : K) (v : V) (m : Map K V) → Unique m → Unique (insert k v m)
  unfolding insert
  Unique-insert k v [] u = (unfold lookup in refl, tt)
  Unique-insert k v ((i, w) ∷ m) u = elim (Bool-cases (i == k)) [
    | inl same ↦ rw same (rw ((e.same_iff i k).0 same) at u.0, u.1)
    | inr other ↦ rw other (
      ground (arith, lookup-insert k i v m, e.same_iff k i, e.same_iff i k, u.0),
      Unique-insert k v m u.1,
    )
  ]

  pub lookup-delete_self : (k : K) (m : Map K V) → Unique m → lookup k (delete k m) ≡ none
  unfolding lookup delete
  lookup-delete_self k [] u = refl
  lookup-delete_self k ((i, w) ∷ m) u = elim (Bool-cases (i == k)) [
    | inl same ↦ rw same (rw ((e.same_iff i k).0 same) at u.0)
    | inr other ↦ rw (other, lookup) (rw other (lookup-delete_self k m u.1))
  ]

  pub lookup-insert_self : (k : K) (v : V) (m : Map K V) → lookup k (insert k v m) ≡ some v
  lookup-insert_self k v m = rw (lookup-insert, (e.same_iff k k).1 refl)

  pub lookup-nil : (k : K) → lookup k [] ≡ none
  unfolding lookup
  lookup-nil k = refl

  pub delete-nil : (k : K) → delete k [] ≡ []
  unfolding delete
  delete-nil k = refl

  pub total-delete-le : (f : V → ℕ) (k : K) (m : Map K V) → total f (delete k m) ≤ total f m
  unfolding delete
  total-delete-le f k [] = omega arith
  total-delete-le f k ((j, w) ∷ m) = ground (arith, total-delete-le f k m)

  pub delete-none : (k : K) (m : Map K V) → lookup k m ≡ none → delete k m ≡ m
  unfolding lookup delete
  delete-none k [] h = refl
  delete-none k ((j, w) ∷ m) h = ground (arith, delete-none k m)
