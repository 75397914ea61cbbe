-- ===== src/Demux/Retire/Deadlines.antt =====
-- The timer of the retirement records: what `NextDeadline` announces is what `Expire` acts on.
use ami.Base.{
  ℕ, ◌≤◌, ◌<◌, ◌≡◌, ◌↔◌, ◌⊎◌, refl, ◌∙◌, true, false, nat_eq, inl, inr, [], ◌∷◌, some, none, arith,
  Bytes, Map, All, ok, ltb, ltb→lt, if◌then◌else◌, Bool-cases,
}
use ami.Demux.Types.{Record, Reason}
use ami.Demux.Machine.{Machine, advance, no_effects}
use ami.Demux.Retire.{bytes_lt, earliest, next_deadline, expired, precedes}
use ami.Demux.Death.{expire, fatal}

earliest-some : (d : ℕ) (rs : Map Bytes Record) → (e : ℕ) × (earliest (some d) rs ≡ some e)
unfolding earliest
earliest-some d [] = (d, refl)
earliest-some d ((a, r) ∷ rs) = earliest-some (if ltb r.deadline d then r.deadline else d) rs

-- The announced deadline is that of the held record or of one in the rest, and it is the least.
earliest-late :
    (d e now : ℕ) (rs : Map Bytes Record)
    → earliest (some d) rs ≡ some e
    → now < e
    → (now < d) × All (λ a r. now < r.deadline) rs
unfolding earliest
earliest-late d e now [] h lt = (ground arith, tt)
earliest-late d e now ((a, r) ∷ rs) h lt =
    let (first, rest) = earliest-late (if ltb r.deadline d then r.deadline else d) e now rs h lt in
    (ground arith, (ground arith, rest))

-- While no deadline has come, the loop of `Expire` keeps what it holds.
expired-none :
    (now : ℕ) (rs : Map Bytes Record)
    → All (λ a r. now < r.deadline) rs
    → expired now none rs ≡ none
unfolding expired
expired-none now [] a = refl
expired-none now ((k, r) ∷ rs) a = ground (arith, a.0, expired-none now rs a.1)

-- The order of ActionIDs is asymmetric, and a text between two others is behind the one or before the
-- other.
bytes_lt_asym : (s t : Bytes) → bytes_lt s t ≡ true → bytes_lt t s ≡ false
unfolding bytes_lt
bytes_lt_asym [] [] h = refl
bytes_lt_asym [] (d ∷ t) h = refl
bytes_lt_asym (c ∷ s) [] h = absurd (ground (arith, h))
bytes_lt_asym (c ∷ s) (d ∷ t) h = elim (Bool-cases (bytes_lt s t)) [
  | inl first ↦ ground (arith, h, first, bytes_lt_asym s t first)
  | inr other ↦ ground (arith, h, other)
]

bytes_lt_between :
    (s t u : Bytes) → bytes_lt s t ≡ false → bytes_lt t u ≡ false → bytes_lt s u ≡ false
unfolding bytes_lt
bytes_lt_between [] [] [] h k = refl
bytes_lt_between [] [] (e ∷ u) h k = absurd (ground (arith, k))
bytes_lt_between [] (d ∷ t) u h k = absurd (ground (arith, h))
bytes_lt_between (c ∷ s) t [] h k = refl
bytes_lt_between (c ∷ s) [] (e ∷ u) h k = absurd (ground (arith, k))
bytes_lt_between (c ∷ s) (d ∷ t) (e ∷ u) h k = elim (Bool-cases (bytes_lt s t)) [
  | inl first ↦ ground (arith, h, k, first)
  | inr other ↦ elim (Bool-cases (bytes_lt t u)) [
    | inl first ↦ ground (arith, h, k, other, first)
    | inr last ↦ ground (arith, h, k, other, last, bytes_lt_between s t u other last)
  ]
]

-- The record is one of the map.
abbrev pub Among : Record → Map Bytes Record → Type 0
Among r [] = ⊥
Among r ((a, x) ∷ rs) = (x ≡ r) ⊎ Among r rs

-- The record runs out before the other one, or with it and under an ActionID that is not behind.
abbrev pub RunsOutFirst : Record → Record → Type 0
RunsOutFirst r x =
    (r.deadline < x.deadline)
    ⊎ ((r.deadline ≡ x.deadline) × (bytes_lt x.action_id r.action_id ≡ false))

bytes_lt_irrefl : (s : Bytes) → bytes_lt s s ≡ false
unfolding bytes_lt
bytes_lt_irrefl [] = refl
bytes_lt_irrefl (c ∷ s) = ground (arith, bytes_lt_irrefl s)

RunsOutFirst-refl : (r : Record) → RunsOutFirst r r
RunsOutFirst-refl r = inr (refl, bytes_lt_irrefl r.action_id)

RunsOutFirst-trans : (r b x : Record) → RunsOutFirst r b → RunsOutFirst b x → RunsOutFirst r x
RunsOutFirst-trans r b x (inl l) (inl k) = inl (omega (arith, l, k))
RunsOutFirst-trans r b x (inl l) (inr (k, o)) = inl (omega (arith, l, k))
RunsOutFirst-trans r b x (inr (l, o)) (inl k) = inl (omega (arith, l, k))
RunsOutFirst-trans r b x (inr (l, o)) (inr (k, p)) =
    inr (l ∙ k, bytes_lt_between x.action_id b.action_id r.action_id p o)

preceding : (x b : Record) → precedes x (some b) ≡ true → RunsOutFirst x b
preceding x b h = elim (Bool-cases (ltb x.deadline b.deadline)) [
  | inl earlier ↦ inl (ltb→lt x.deadline b.deadline earlier)
  | inr later ↦
      inr
        (ground (arith, h, later), bytes_lt_asym x.action_id b.action_id (ground (arith, h, later)))
]

not_preceding : (x b : Record) → precedes x (some b) ≡ false → RunsOutFirst b x
not_preceding x b h = elim (Bool-cases (nat_eq x.deadline b.deadline)) [
  | inl same ↦ inr (ground (arith, same), ground (arith, h, same))
  | inr other ↦ inl (ground (arith, h, other))
]

-- What the loop holds at its end, when it starts with an expired record: that one or one of the map,
-- and none of them runs out before it.
expired-some :
    (now : ℕ) (b : Record) (rs : Map Bytes Record)
    → b.deadline ≤ now
    → (r : Record) × (expired now (some b) rs ≡ some r)
      × ((b ≡ r) ⊎ Among r rs)
      × RunsOutFirst r b
      × (r.deadline ≤ now)
      × All (λ a x. RunsOutFirst r x) rs
unfolding expired
expired-some now b [] h = (b, refl, inl refl, RunsOutFirst-refl b, h, tt)
expired-some now b ((k, x) ∷ rs) h = elim (Bool-cases (ltb now x.deadline)) [
  | inl later ↦
      let (r, e, from, first, due, all) = expired-some now b rs h in
      (
        r,
        rw later e,
        widen r from,
        first,
        due,
        (inl (omega (arith, due, ltb→lt now x.deadline later)), all),
      )
  | inr due_now ↦ elim (Bool-cases (precedes x (some b))) [
    | inl before ↦
        let (r, e, from, first, due, all) = expired-some now x rs (ground (arith, due_now)) in
        (
          r,
          rw due_now (rw before e),
          inr from,
          RunsOutFirst-trans r x b first (preceding x b before),
          due,
          (first, all),
        )
    | inr behind ↦
        let (r, e, from, first, due, all) = expired-some now b rs h in
        (
          r,
          rw due_now (rw behind e),
          widen r from,
          first,
          due,
          (RunsOutFirst-trans r b x first (not_preceding x b behind), all),
        )
  ]
]
  where
    widen : (r : Record) → (b ≡ r) ⊎ Among r rs → (b ≡ r) ⊎ ((x ≡ r) ⊎ Among r rs)
    widen r (inl e) = inl e
    widen r (inr m) = inr (inr m)

-- The first record that is due starts the search; if there is none, the loop holds nothing.
expired-cases :
    (now : ℕ) (rs : Map Bytes Record)
    → All (λ a r. now < r.deadline) rs
      ⊎ ((r : Record) × (expired now none rs ≡ some r)
          × Among r rs
          × (r.deadline ≤ now)
          × All (λ a x. RunsOutFirst r x) rs)
unfolding expired
expired-cases now [] = inl tt
expired-cases now ((k, x) ∷ rs) = elim (Bool-cases (ltb now x.deadline)) [
  | inr due_now ↦
      let (r, e, from, first, due, all) = expired-some now x rs (ground (arith, due_now)) in
      inr (r, rw due_now e, from, due, (first, all))
  | inl later ↦ elim (expired-cases now rs) [
    | inl all ↦ inl (ltb→lt now x.deadline later, all)
    | inr (r, e, from, due, all) ↦
        inr (
          r,
          rw later e,
          inr from,
          due,
          (inl (omega (arith, due, ltb→lt now x.deadline later)), all),
        )
  ]
]

earliest-early :
    (d e now : ℕ) (rs : Map Bytes Record)
    → earliest (some d) rs ≡ some e
    → now < d
    → All (λ a r. now < r.deadline) rs
    → now < e
unfolding earliest
earliest-early d e now [] h lt all = ground arith
earliest-early d e now ((a, r) ∷ rs) h lt all =
    earliest-early (if ltb r.deadline d then r.deadline else d) e now rs h (ground arith) all.1

-- The announced deadline lies ahead exactly when all deadlines do.
earliest-All :
    (e now : ℕ) (rs : Map Bytes Record)
    → earliest none rs ≡ some e
    → (now < e) ↔ All (λ a r. now < r.deadline) rs
unfolding earliest
earliest-All e now [] h = absurd (cc)
earliest-All e now ((a, r) ∷ rs) h = (
  (λ lt. earliest-late r.deadline e now rs h lt),
  (λ all. earliest-early r.deadline e now rs h all.0 all.1),
)

module _ {T : Type 0} (m : Machine T) (d now : ℕ) (live : m.dead ≡ false)
    (announced : next_deadline m ≡ some d) where
  announced_earliest : earliest none m.records ≡ some d
  unfolding next_deadline
  announced_earliest = ground (arith, live, announced)

  -- On a live machine that announces a deadline, `Expire` before that deadline only advances the
  -- clock: no effect and no loss.
  pub expire_early : now < d → expire m now ≡ ok (advance m now, no_effects)
  unfolding expire
  expire_early lt = ground (
    arith,
    live,
    expired-none now m.records ((earliest-All d now m.records announced_earliest).0 lt),
  )

  -- On a live machine that announces a deadline, `Expire` at or after that deadline ends in `fatal`,
  -- naming the kind of a record of the machine that is due: no record of the machine has an earlier
  -- deadline, and none with the same deadline has a smaller ActionID.
  pub expire_due :
      d ≤ now
      → (r : Record) × (expire m now ≡ fatal (advance m now) Reason.retirement_expired r.kind)
        × Among r m.records
        × (r.deadline ≤ now)
        × All (λ a x. RunsOutFirst r x) m.records
  unfolding expire
  expire_due le = elim (expired-cases now m.records) [
    | inl all ↦ absurd (omega (arith, (earliest-All d now m.records announced_earliest).1 all))
    | inr (r, e, from, due, first) ↦ (r, ground (arith, live, e), from, due, first)
  ]
