-- ===== src/Demux/Cascade/Waiters.antt =====
-- The loop of the death cascade over the pendings.
use ami.Base.{
  ℕ, ◌≡◌, refl, ap, sym, subst, ◌∙◌, true, false, not, ◌&&◌, ◌⊎◌, inl, inr, List, [], ◌∷◌, ◌++◌,
  Option, some, none, nat_eq, nat_eq_iff, lookup, lookup-insert, lookup-delete_ne, insert,
  number_eq, ok, keys, Bool-cases, Map, Unique, All, arith,
}
use ami.Demux.Types.{Completion, Effects, Pending, PendingState, is_completed}
use ami.Demux.Machine.{Machine, save_pending}
use ami.Demux.Death.{
  kill_pending, kill_pendings, release_ret_hold, maybe_release_ticket, end_pending,
}
use ami.Demux.Branch.{holds}
use ami.Demux.Cascade.{either}
use ami.Demux.Ledger.{IsTicketed}

-- The ticket is sent the completion without a response.
abbrev pub Completes : {T : Type 0} → ℕ → List (Completion T) → Type 0
Completes t [] = ⊥
Completes t (c ∷ cs) =
    (c ≡ record { ticket = t; response = none; delivered = false }) ⊎ Completes t cs

Completes-append :
    {T : Type 0} (t : ℕ) (xs ys : List (Completion T)) → Completes t xs → Completes t (xs ++ ys)
Completes-append t [] ys h = absurd h
Completes-append t (x ∷ xs) ys (inl e) = inl e
Completes-append t (x ∷ xs) ys (inr h) = inr (Completes-append t xs ys h)

Completes-last :
    {T : Type 0} (t : ℕ) (xs : List (Completion T))
    → Completes t (xs ++ (record { ticket = t; response = none; delivered = false } ∷ []))
Completes-last t [] = inl refl
Completes-last t (x ∷ xs) = inr (Completes-last t xs)

abbrev Differs : ℕ → List ℕ → Type 0
Differs t [] = Unit
Differs t (u ∷ us) = (nat_eq t u ≡ false) × Differs t us

-- Each ticket has its pending, and none stands twice.
abbrev Held : Map ℕ Pending → List ℕ → Type 0
Held ps [] = Unit
Held ps (t ∷ ts) =
    ((p : Pending) × (lookup t ps ≡ some p) × (p.ticket ≡ t)) × Differs t ts × Held ps ts

some_same : {A : Type 0} (a b : A) → ◌≡◌ {A = Option A} (some a) (some b) → a ≡ b
some_same a b e = cc

other_of :
    (t u : ℕ) (us : List ℕ) → nat_eq u t ≡ false → holds t (u ∷ us) ≡ true → holds t us ≡ true
unfolding holds
other_of t u us n h = ground (arith, n, h)

present-holds :
    (t : ℕ) (p : Pending) (ps : Map ℕ Pending) → lookup t ps ≡ some p → holds t (keys ps) ≡ true
unfolding lookup holds
present-holds t p [] h = absurd (cc)
present-holds t p ((u, q) ∷ ps) h = elim (Bool-cases (nat_eq u t)) [
  | inl e ↦ rw e refl
  | inr n ↦ rw n (present-holds t p ps (sym (rw n refl) ∙ h))
]

absent-Differs : (t : ℕ) (ps : Map ℕ Pending) → lookup t ps ≡ none → Differs t (keys ps)
unfolding lookup
absent-Differs t [] h = tt
absent-Differs t ((u, q) ∷ ps) h = elim (Bool-cases (nat_eq u t)) [
  | inl e ↦ absurd (ground (arith, e, h))
  | inr n ↦ (ground (arith, n), absent-Differs t ps (sym (rw n refl) ∙ h))
]

-- A map in front of which nothing is added keeps the pendings behind it.
Held-behind :
    (t : ℕ) (q : Pending) (ps : Map ℕ Pending) (us : List ℕ)
    → Differs t us
    → Held ps us
    → Held ((t, q) ∷ ps) us
unfolding lookup
Held-behind t q ps [] d h = tt
Held-behind t q ps (u ∷ us) d ((p, found, keyed), fresh, rest) =
    ((p, rw d.0 found, keyed), fresh, Held-behind t q ps us d.1 rest)

keys-Held : (ps : Map ℕ Pending) → Unique ps → All IsTicketed ps → Held ps (keys ps)
unfolding lookup
keys-Held [] u a = tt
keys-Held ((t, q) ∷ ps) u a =
    let fresh = absent-Differs t ps u.0 in
    (
      (q, rw ((nat_eq_iff t t).1 refl) refl, a.0.0),
      fresh,
      Held-behind t q ps (keys ps) fresh (keys-Held ps u.1 a.1),
    )

flipped : (a b : ℕ) → nat_eq a b ≡ false → nat_eq b a ≡ false
flipped a b h = ground (arith, h)

inserted :
    (k u : ℕ) (q : Pending) (ps : Map ℕ Pending)
    → nat_eq k u ≡ false
    → lookup u (insert k q ps) ≡ lookup u ps
inserted k u q ps n = lookup-insert k u q ps ∙ rw n refl

module _ {T : Type 0} where
  -- The pending of a ticket is as it was.
  abbrev Spared : ℕ → Machine T → Machine T → Type 0
  Spared u m n = lookup u n.pend_by_ticket ≡ lookup u m.pend_by_ticket

  released-Spared :
      (m : Machine T) (q : Pending) (u : ℕ)
      → nat_eq q.ticket u ≡ false
      → Spared u m (release_ret_hold m q)
  unfolding release_ret_hold
  released-Spared m q u n =
      either (Spared u m) (not q.ret_held) _ _ refl
        (inserted q.ticket u (record q { ret_held = false }) m.pend_by_ticket n)

  maybe_release_ticket-Spared :
      (m : Machine T) (q : Pending) (u : ℕ)
      → nat_eq q.ticket u ≡ false
      → Spared u m (maybe_release_ticket m q)
  unfolding maybe_release_ticket
  maybe_release_ticket-Spared m q u n =
      either (λ (ps : Map ℕ Pending). lookup u ps ≡ lookup u m.pend_by_ticket)
        (is_completed q.state && q.committed && not q.fol_open && not q.lst_open) _ _
        (lookup-delete_ne q.ticket u m.pend_by_ticket (flipped q.ticket u n)) refl

  -- A round of the loop leaves the other pendings alone.
  kill_pending-Spared :
      (m : Machine T) (fx : Effects T) (p : Pending) (u : ℕ)
      → nat_eq p.ticket u ≡ false
      → Spared u m (kill_pending m fx p).0
  unfolding kill_pending
  kill_pending-Spared m fx p u n =
      let open_pending = record p { state = PendingState.completed; dead_done = true } in
      let done : Pending = record open_pending { ret_held = false } in
      let h = release_ret_hold m open_pending in
      let s = end_pending (save_pending h done) p in
      either (λ (r : Machine T × Effects T). Spared u m r.0) (is_completed p.state) _ _ refl
        (maybe_release_ticket-Spared s done u n
          ∙ inserted p.ticket u done h.pend_by_ticket n
          ∙ released-Spared m open_pending u n)

  kill_pending-keeps :
      (m : Machine T) (fx : Effects T) (p : Pending) (t : ℕ)
      → Completes t fx.complete
      → Completes t (kill_pending m fx p).1.complete
  unfolding kill_pending
  kill_pending-keeps m fx p t h = elim (Bool-cases (is_completed p.state)) [
    | inl e ↦ rw e h
    | inr e ↦ rw e (Completes-append t fx.complete _ h)
  ]

  kill_pending-Completes :
      (m : Machine T) (fx : Effects T) (p : Pending)
      → is_completed p.state ≡ false
      → Completes p.ticket (kill_pending m fx p).1.complete
  unfolding kill_pending
  kill_pending-Completes m fx p e = rw e (Completes-last p.ticket fx.complete)

  Held-Spared :
      (m n : Machine T) (t : ℕ) (ts : List ℕ)
      → ((u : ℕ) → nat_eq t u ≡ false → Spared u m n)
      → Differs t ts
      → Held m.pend_by_ticket ts
      → Held n.pend_by_ticket ts
  Held-Spared m n t [] same d h = tt
  Held-Spared m n t (u ∷ us) same d ((p, found, keyed), fresh, rest) =
      ((p, same u d.0 ∙ found, keyed), fresh, Held-Spared m n t us same d.1 rest)

  this_round :
      (m : Machine T) (fx : Effects T) (q p : Pending) (u t : ℕ)
      → u ≡ t
      → q.ticket ≡ u
      → lookup u m.pend_by_ticket ≡ some q
      → lookup t m.pend_by_ticket ≡ some p
      → is_completed p.state ≡ false
      → Completes t (kill_pending m fx q).1.complete
  this_round m fx q p u t e keyed found here running =
      let same : q ≡ p =
        some_same q p (sym found ∙ ap (λ (x : ℕ). lookup x m.pend_by_ticket) e ∙ here) in
      subst (λ (x : ℕ). Completes x (kill_pending m fx q).1.complete) (keyed ∙ e)
        (kill_pending-Completes m fx q (ap (λ (x : Pending). is_completed x.state) same ∙ running))

  -- What the loop returns for the tickets of the list.
  record Swept (m : Machine T) (fx : Effects T) (ts : List ℕ) (r : Machine T × Effects T)
      : Type 0 where
    returned : kill_pendings ts m fx ≡ ok r
    kept : (t : ℕ) → Completes t fx.complete → Completes t r.1.complete
    swept :
        (t : ℕ) (p : Pending)
        → holds t ts ≡ true
        → lookup t m.pend_by_ticket ≡ some p
        → is_completed p.state ≡ false
        → Completes t r.1.complete

  kill_pendings-Swept :
      (ts : List ℕ) (m : Machine T) (fx : Effects T)
      → Held m.pend_by_ticket ts
      → (r : Machine T × Effects T) × Swept m fx ts r
  unfolding kill_pendings holds
  kill_pendings-Swept [] m fx h = (
    (m, fx),
    record { returned = refl; kept = λ t c. c; swept = λ t p i. absurd (ground (arith, i)) },
  )
  kill_pendings-Swept (u ∷ us) m fx ((q, found, keyed), fresh, rest) =
      let k = kill_pending m fx q in
      let others : (v : ℕ) → nat_eq u v ≡ false → Spared v m k.0 =
        λ v n. kill_pending-Spared m fx q v (rw keyed n) in
      let (r, v) = kill_pendings-Swept us k.0 k.1 (Held-Spared m k.0 u us others fresh rest) in
      (
        r,
        record {
          returned = rw found v.returned;
          kept = λ t c. v.kept t (kill_pending-keeps m fx q t c);
          swept = λ t p i here running. elim (Bool-cases (nat_eq u t)) [
            | inl e ↦
                v.kept t (this_round m fx q p u t ((nat_eq_iff u t).0 e) keyed found here running)
            | inr n ↦ v.swept t p (other_of t u us n i) (others t n ∙ here) running
          ];
        },
      )

  -- The loop of the death cascade over the tickets of a machine that has each pending under its own
  -- ticket, and no ticket twice. It returns, and every pending whose outcome was still awaited is
  -- completed: its ticket has a completion without a response among the effects.
  pub kill_pendings-Completes :
      (m : Machine T) (fx : Effects T) (t : ℕ) (p : Pending)
      → Unique m.pend_by_ticket
      → All IsTicketed m.pend_by_ticket
      → lookup t m.pend_by_ticket ≡ some p
      → is_completed p.state ≡ false
      → (r : Machine T × Effects T) × (kill_pendings (keys m.pend_by_ticket) m fx ≡ ok r)
        × Completes t r.1.complete
  kill_pendings-Completes m fx t p u a here running =
      let (r, v) =
        kill_pendings-Swept (keys m.pend_by_ticket) m fx (keys-Held m.pend_by_ticket u a) in
      (r, v.returned, v.swept t p (present-holds t p m.pend_by_ticket here) here running)
