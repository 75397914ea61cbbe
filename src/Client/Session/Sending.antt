-- ===== src/Client/Session/Sending.antt =====
-- Which completion a ticket is sent.
use ami.Base.{
  ℕ, ◌≡◌, refl, ap, subst, ◌∙◌, inl, inr, Bool, true, false, not, List, [], ◌∷◌, ◌++◌, Option, some,
  none, nat_eq, nat_eq_iff, if◌then◌else◌, Bool-cases, Outcome, ok, err,
}
use ami.Demux.Types.{Reason, Envelope, Completion, Fatality, Effects, Violation}
use ami.Demux.Machine.{Machine}
use ami.Demux.Route.{route}
use ami.Client.Session.{
  Failure, Session, Wreck, release, release_one, deliver, wake_one, wake_all, terminal_of,
  BranchState, undelivered, sweep, commit_cause, commit_fatal, apply_effects, killed, die, routed,
  route_with, route_one,
}
use ami.Client.Session.Release.{IsLeft, release-Keeps, deliver-Keeps, sweep-Keeps}
use ami.Client.Session.Termination.{killed-Keeps}

-- The first completion for the ticket among the effects of a call.
unfoldable pub first_for : {T : Type 0} → ℕ → List (Completion T) → Option (Completion T)
first_for t [] = none
first_for t (c ∷ cs) = if nat_eq t c.ticket then some c else first_for t cs

module _ {E T : Type 0} where
  -- What a waiting ticket is sent by a loop, when its first completion is this one.
  abbrev Handed : Session E T → Session E T → ℕ → Option (Completion T) → Type 0
  Handed s s' t none = (s'.waiting t ≡ true) × (s'.channels t ≡ s.channels t)
  Handed s s' t (some c) = (s'.waiting t ≡ false) × (s'.channels t ≡ s.channels t ++ (c ∷ []))

  Handed-from :
      (a b c : Session E T) (t : ℕ) (o : Option (Completion T))
      → b.channels t ≡ a.channels t
      → Handed b c t o
      → Handed a c t o
  Handed-from a b c t none e h = (h.0, h.1 ∙ e)
  Handed-from a b c t (some x) e h =
      (h.0, h.1 ∙ ap (λ (xs : List (Completion T)). xs ++ (x ∷ [])) e)

  release-IsLeft :
      (s : Session E T) (cs : List (Completion T)) (t : ℕ)
      → s.waiting t ≡ false
      → IsLeft s (release s cs) t
  release-IsLeft s cs t idle = (release-Keeps s cs).left t idle

  release-Handed :
      (s : Session E T) (cs : List (Completion T)) (t : ℕ)
      → s.waiting t ≡ true
      → Handed s (release s cs) t (first_for t cs)
  unfolding release first_for
  release-Handed s [] t waits = (waits, refl)
  release-Handed s (c ∷ cs) t waits = elim (Bool-cases (nat_eq t c.ticket)) [
    | inl e ↦
        let mine : s.waiting c.ticket ≡ true =
          subst (λ u. s.waiting u ≡ true) ((nat_eq_iff t c.ticket).0 e) waits in
        let v = release-IsLeft (release_one s c) cs t (rw (waits, e) refl) in
        rw e (rw (mine, release) (v.0, v.1 ∙ rw e refl))
    | inr e ↦ elim (Bool-cases (s.waiting c.ticket)) [
      | inl w ↦ rw e (
          rw (w, release)
            (Handed-from s (release_one s c) (release (release_one s c) cs) t (first_for t cs)
              (rw e refl) (release-Handed (release_one s c) cs t (rw (waits, e) refl))))
      | inr w ↦ rw e (rw (w, release) (release-Handed s cs t waits))
    ]
  ]

  wake_one-tickets :
      (s : Session E T) (id : ℕ) (b : Option (BranchState E)) (reason : Option Reason)
      → ((wake_one s id b reason).waiting ≡ s.waiting)
        × ((wake_one s id b reason).channels ≡ s.channels)
  wake_one-tickets s id none reason = (refl, refl)
  wake_one-tickets s id (some b) reason = (refl, refl)

  -- What a waiting ticket is sent by a call whose first completion for it is this one: that one; and if
  -- there is none, the sweep sends it the undelivered one exactly when the session is over.
  abbrev pub Sent : Session E T → Session E T → ℕ → Option (Completion T) → Type 0
  Sent s s' t (some c) = (s'.waiting t ≡ false) × (s'.channels t ≡ s.channels t ++ (c ∷ []))
  Sent s s' t none =
      (s'.waiting t ≡ not s'.terminated)
      × (s'.channels t
          ≡ (if s'.terminated then s.channels t ++ (undelivered t ∷ []) else s.channels t))

  -- The loop that wakes branches leaves the tickets alone.
  wake_all-tickets :
      (w : Wreck T) (s : Session E T) (ids : List ℕ)
      → ((wake_all w s ids).waiting ≡ s.waiting) × ((wake_all w s ids).channels ≡ s.channels)
  unfolding wake_all
  wake_all-tickets w s [] = (refl, refl)
  wake_all-tickets w s (id ∷ ids) =
      let v = wake_all-tickets w (wake_one s id (s.branches id) (terminal_of w s id)) ids in
      let u = wake_one-tickets s id (s.branches id) (terminal_of w s id) in (v.0 ∙ u.0, v.1 ∙ u.1)

  moved :
      (s a b : Session E T) (t : ℕ) (o : Option (Completion T))
      → b.waiting t ≡ a.waiting t
      → b.channels t ≡ a.channels t
      → Handed s a t o
      → Handed s b t o
  moved s a b t none p q h = (p ∙ h.0, q ∙ h.1)
  moved s a b t (some c) p q h = (p ∙ h.0, q ∙ h.1)

  deliver-Handed :
      (w : Wreck T) (s : Session E T) (fx : Effects T) (t : ℕ)
      → s.waiting t ≡ true
      → Handed s (deliver w s fx) t (first_for t fx.complete)
  unfolding deliver
  deliver-Handed w s fx t waits =
      let v = wake_all-tickets w (release s fx.complete) fx.wakes in
      moved s (release s fx.complete) (wake_all w (release s fx.complete) fx.wakes) t
        (first_for t fx.complete) (ap (λ (f : ℕ → Bool). f t) v.0)
        (ap (λ (f : ℕ → List (Completion T)). f t) v.1) (release-Handed s fx.complete t waits)

  -- The sweep behind the loops, if the session is over.
  swept-Sent :
      (s d : Session E T) (t : ℕ) (o : Option (Completion T)) (over : Bool)
      → d.terminated ≡ over
      → Handed s d t o
      → Sent s (if over then sweep d else d) t o
  swept-Sent s d t none true e h =
      unfold sweep in
      rw e (refl, rw h.0 (ap (λ (xs : List (Completion T)). xs ++ (undelivered t ∷ [])) h.1))
  swept-Sent s d t (some c) true e h = let v = (sweep-Keeps d).left t h.0 in (v.0, v.1 ∙ h.1)
  swept-Sent s d t none false e h = rw e h
  swept-Sent s d t (some c) false e h = h

  commit_fatal-tickets :
      (s : Session E T) (f : Option Fatality)
      → ((commit_fatal s f).waiting ≡ s.waiting) × ((commit_fatal s f).channels ≡ s.channels)
  commit_fatal-tickets s none = (refl, refl)
  commit_fatal-tickets s (some f) = elim (Bool-cases s.terminated) [
    | inl e ↦ rw e (refl, refl)
    | inr e ↦ rw e (refl, refl)
  ]

  Sent-from :
      (a b c : Session E T) (t : ℕ) (o : Option (Completion T))
      → b.channels t ≡ a.channels t
      → Sent b c t o
      → Sent a c t o
  Sent-from a b c t none e h = (h.0, rw⁻¹ e h.1)
  Sent-from a b c t (some x) e h = (h.0, rw⁻¹ e h.1)

  apply_effects-Sent :
      (w : Wreck T) (s : Session E T) (fx : Effects T) (t : ℕ)
      → s.waiting t ≡ true
      → Sent s (apply_effects w s fx) t (first_for t fx.complete)
  unfolding apply_effects
  apply_effects-Sent w s fx t waits =
      let b = commit_fatal s fx.fatal in
      let d = deliver w b fx in
      let v = commit_fatal-tickets s fx.fatal in
      Sent-from s b (if d.terminated then sweep d else d) t (first_for t fx.complete)
        (ap (λ (f : ℕ → List (Completion T)). f t) v.1)
        (swept-Sent b d t (first_for t fx.complete) d.terminated refl
          (deliver-Handed w b fx t (ap (λ (f : ℕ → Bool). f t) v.0 ∙ waits)))

  -- The machine routes a message and returns effects. Then every waiting ticket is sent the first
  -- completion for it among them, and waits no more; a ticket that has none there waits on with its
  -- channel as it was while the session runs, and is sent the undelivered completion when the session
  -- is over.
  pub route_one-Sent :
      (w : Wreck T) (s : Session E T) (env : Envelope) (msg : T) (m m' : Machine T) (fx : Effects T)
      (t : ℕ)
      → s.machine ≡ some m
      → route m env msg ≡ ok (m', fx)
      → s.waiting t ≡ true
      → Sent s (route_one w s env msg) t (first_for t fx.complete)
  unfolding route_one
  route_one-Sent w s env msg m m' fx t has routes waits =
      rw has (rw routes (apply_effects-Sent w (record s { machine = some m' }) fx t waits))

  swept-IsLeft :
      (s d : Session E T) (t : ℕ) (over : Bool)
      → IsLeft s d t
      → IsLeft s (if over then sweep d else d) t
  swept-IsLeft s d t true h = let v = (sweep-Keeps d).left t h.0 in (v.0, v.1 ∙ h.1)
  swept-IsLeft s d t false h = h

  -- A ticket that does not wait is sent nothing, by the effects of a call, by a death and by the routing
  -- of a message.
  pub apply_effects-IsLeft :
      (w : Wreck T) (s : Session E T) (fx : Effects T) (t : ℕ)
      → s.waiting t ≡ false
      → IsLeft s (apply_effects w s fx) t
  unfolding apply_effects
  apply_effects-IsLeft w s fx t idle =
      let b = commit_fatal s fx.fatal in
      let d = deliver w b fx in
      let v = commit_fatal-tickets s fx.fatal in
      let x = (deliver-Keeps w b fx).left t (ap (λ (f : ℕ → Bool). f t) v.0 ∙ idle) in
      swept-IsLeft s d t d.terminated (x.0, x.1 ∙ ap (λ (f : ℕ → List (Completion T)). f t) v.1)

  pub die-IsLeft :
      (w : Wreck T) (s : Session E T) (e : Failure E) (t : ℕ)
      → s.waiting t ≡ false
      → IsLeft s (die w s e) t
  unfolding die
  die-IsLeft w s e t idle =
      let k = killed w (commit_cause s e) in
      let d = deliver w k.0 k.1 in
      let x = (killed-Keeps w (commit_cause s e)).left t idle in
      let y = (deliver-Keeps w k.0 k.1).left t x.0 in
      let z = (sweep-Keeps d).left t y.0 in
      elim (Bool-cases s.terminated) [
        | inl over ↦ rw over (idle, refl)
        | inr running ↦ rw running (z.0, z.1 ∙ y.1 ∙ x.1)
      ]

  route_with-IsLeft :
      (w : Wreck T) (s : Session E T) (env : Envelope) (msg : T) (o : Option (Machine T)) (t : ℕ)
      → s.waiting t ≡ false
      → IsLeft s (route_with w s env msg o) t
  route_with-IsLeft w s env msg none t idle = die-IsLeft w s Failure.panicked t idle
  route_with-IsLeft w s env msg (some m) t idle = routed-IsLeft (route m env msg)
    where
      routed-IsLeft : (o : Outcome Violation (Machine T × Effects T)) → IsLeft s (routed w s o) t
      routed-IsLeft (ok (m', fx)) =
          apply_effects-IsLeft w (record s { machine = some m' }) fx t idle
      routed-IsLeft (err v) = die-IsLeft w (record s { machine = none }) Failure.panicked t idle

  pub route_one-IsLeft :
      (w : Wreck T) (s : Session E T) (env : Envelope) (msg : T) (t : ℕ)
      → s.waiting t ≡ false
      → IsLeft s (route_one w s env msg) t
  unfolding route_one
  route_one-IsLeft w s env msg t idle = route_with-IsLeft w s env msg s.machine t idle
