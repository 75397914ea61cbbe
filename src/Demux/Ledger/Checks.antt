-- ===== src/Demux/Ledger/Checks.antt =====
-- A sound machine passes `check`.
use ami.Base.{
  ℕ, ◌≤◌, ◌≡◌, refl, Bool, true, false, not, ◌||◌, inl, inr, arith, every-true, Outcome, ok, err,
  ◌>>=◌, nat_eq, nat_eq_iff, Bool-cases, if◌then◌else◌,
}
use ami.Demux.Types.{Violation}
use ami.Demux.Machine.{
  Machine, Subscription, Follow, ListBranch, check, checked, sub_fits, follow_fits, list_fits,
  within, nothing_routed,
}
use ami.Demux.Ledger.{IsSound, Quiet, SubFits, FollowFits, ListFits, Safe}

nat_eq_of_eq : (a b : ℕ) → a ≡ b → nat_eq a b ≡ true
nat_eq_of_eq a b = (nat_eq_iff a b).1

within_of_le : (limit x : ℕ) → x ≤ limit → within limit x ≡ true
within_of_le limit x h = ground arith

-- Either branch of a test.
pub Safe-if :
    {A : Type 0} (P : A → Type 0) (b : Bool) (x y : Outcome Violation A)
    → (b ≡ true → Safe P x)
    → (b ≡ false → Safe P y)
    → Safe P (if b then x else y)
Safe-if P true x y f g = f refl
Safe-if P false x y f g = g refl

pub Safe-bind :
    {A B : Type 0} (P : A → Type 0) (Q : B → Type 0) (m : Outcome Violation A)
    (f : A → Outcome Violation B)
    → Safe P m
    → ((a : A) → m ≡ ok a → P a → Safe Q (f a))
    → Safe Q (m >>= f)
Safe-bind P Q (ok a) f s k = k a refl s
Safe-bind P Q (err e) f s k = s

module _ {T : Type 0} where
  SubFits-sub_fits : (id : ℕ) (s : Subscription T) → SubFits id s → sub_fits s ≡ true
  SubFits-sub_fits id s v = ground (arith, v.fits.few, v.fits.light)

  FollowFits-follow_fits : (id : ℕ) (f : Follow T) → FollowFits id f → follow_fits f ≡ true
  FollowFits-follow_fits id f v = ground (arith, v.fits.few, v.fits.light)

  ListFits-list_fits : (id : ℕ) (l : ListBranch T) → ListFits id l → list_fits l ≡ true
  ListFits-list_fits id l v = ground (arith, v.fits.few, v.light)

  Quiet-nothing_routed : (m : Machine T) → Quiet m → nothing_routed m ≡ true
  Quiet-nothing_routed m q =
      simp (q.no_records, q.no_order, q.no_follows, q.no_lists, q.no_pendings)

  quiet_or_live : (m : Machine T) → IsSound m → (not m.dead || nothing_routed m) ≡ true
  quiet_or_live m v = elim (Bool-cases m.dead) [
    | inl d ↦ rw (d, Quiet-nothing_routed m (v.quiet d))
    | inr a ↦ rw a
  ]

  -- `check` passes on a sound machine.
  pub check_lem : (m : Machine T) → IsSound m → check m ≡ ok tt
  unfolding check
  check_lem m v = rw (
    every-true SubFits sub_fits SubFits-sub_fits m.sub_by_id v.subs.subs_fit,
    every-true FollowFits follow_fits FollowFits-follow_fits m.fol_by_id v.subs.follows_fit,
    nat_eq_of_eq _ _ v.subs.balance,
    within_of_le _ _ v.subs.room,
    every-true ListFits list_fits ListFits-list_fits m.list_by_id v.lists.lists_fit,
    nat_eq_of_eq _ _ v.lists.balance,
    within_of_le _ _ v.lists.room,
    nat_eq_of_eq _ _ v.slots.held_sum,
    within_of_le _ _ v.slots.room,
    nat_eq_of_eq _ _ v.slots.public_sum,
    quiet_or_live m v,
  )

  -- So a call that ends in `check` returns what it has computed.
  pub checked_lem : {A : Type 0} (f : A → Machine T) (a : A) → IsSound (f a) → checked f a ≡ ok a
  checked_lem f a v = rw (check_lem (f a) v)

  pub checked-Safe :
      {A : Type 0} (f : A → Machine T) (a : A)
      → IsSound (f a)
      → Safe (λ b. IsSound (f b)) (checked f a)
  checked-Safe f a v = rw (check_lem (f a) v) v
