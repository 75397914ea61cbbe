-- ===== src/Demux/Returns.antt =====
-- What holds of the result of a call of internal/demux, if it returns one.
use ami.Base.{◌≡◌, subst, Bool, true, false, arith, if◌then◌else◌, Outcome, ok, err, ◌>>=◌}
use ami.Demux.Types.{Violation}

-- What the result has, where there is one.
abbrev pub Returns : {A : Type 0} → (A → Type 0) → Outcome Violation A → Type 0
Returns P (ok a) = P a
Returns P (err e) = Unit

pub Returns-if :
    {A : Type 0} (P : A → Type 0) (b : Bool) (x y : Outcome Violation A)
    → Returns P x
    → Returns P y
    → Returns P (if b then x else y)
Returns-if P true x y f g = f
Returns-if P false x y f g = g

pub Returns-bind :
    {A B : Type 0} (P : A → Type 0) (Q : B → Type 0) (o : Outcome Violation A)
    (f : A → Outcome Violation B)
    → Returns P o
    → ((a : A) → P a → Returns Q (f a))
    → Returns Q (o >>= f)
Returns-bind P Q (ok a) f r k = k a r
Returns-bind P Q (err e) f r k = tt

pub Returns-ok :
    {A : Type 0} (P : A → Type 0) (o : Outcome Violation A) (a : A) → Returns P o → o ≡ ok a → P a
Returns-ok P (ok b) a r e = subst P {x = b} {y = a} (ground (arith, e)) r
Returns-ok P (err v) a r e = absurd (cc)
