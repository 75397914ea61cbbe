-- ===== src/Client/Session/Termination.antt =====
-- How a session ends.
use ami.Base.{
  ℕ, ◌+◌, ◌≡◌, refl, ap, sym, subst, ◌∙◌, inl, inr, Bool, true, false, Option, some, none, length,
  if◌then◌else◌, Bool-cases, Option-cases, Outcome-cases, Outcome, ok, err, arith,
}
use ami.Demux.Types.{Reason, Envelope, Fatality, Effects, Violation}
use ami.Demux.Machine.{Machine}
use ami.Demux.Death.{kill}
use ami.Demux.Route.{route}
use ami.Client.Session.{
  Failure, BranchState, Session, Wreck, deliver, sweep, commit_cause, commit_fatal, apply_effects,
  killed, die, routed, route_with, route_one,
}
use ami.Client.Session.Release.{
  one_if, due, ClosesOnce, HasEnded, Keeps, Keeps-trans, deliver-Keeps, sweep-Keeps, swept-HasEnded,
}

idle_dues : (n : ℕ) (waits : Bool) (k : ℕ) → waits ≡ false → n + one_if waits ≡ k → n ≡ k
idle_dues n true k w h = ground (arith, w)
idle_dues n false k w h = omega (arith, h)

if_false : {A : Type 0} (b : Bool) (x y : A) → b ≡ false → (if b then x else y) ≡ y
if_false b x y h = rw h refl

if_true : {A : Type 0} (b : Bool) (x y : A) → b ≡ true → (if b then x else y) ≡ x
if_true b x y h = rw h refl

module _ {E T : Type 0} where
  -- The session is over: no ticket waits, each has been sent what was sent or due before, every branch
  -- has ended, and none has closed its channel twice.
  pub record Released (s s' : Session E T) : Type 0 where
    pub over : s'.terminated ≡ true
    pub idle : (t : ℕ) → s'.waiting t ≡ false
    pub answered : (t : ℕ) → length (s'.channels t) ≡ due s t
    pub ended : (id : ℕ) → HasEnded (s'.branches id)
    pub once : (id : ℕ) → ClosesOnce (s.branches id) → ClosesOnce (s'.branches id)

  -- Whatever has kept the dues, the sweep releases.
  sweep-Released :
      (s d : Session E T)
      → ((t : ℕ) → due d t ≡ due s t)
      → ((id : ℕ) → ClosesOnce (s.branches id) → ClosesOnce (d.branches id))
      → d.terminated ≡ true
      → Released s (sweep d)
  sweep-Released s d dues once over = record {
    over = (sweep-Keeps d).ended ∙ over;
    idle = λ t. unfold sweep in refl;
    answered = λ t.
        idle_dues (length ((sweep d).channels t)) ((sweep d).waiting t) (due s t)
          (unfold sweep in refl) ((sweep-Keeps d).dues t ∙ dues t);
    ended = λ id. unfold sweep in swept-HasEnded d.cause (d.branches id);
    once = λ id c. (sweep-Keeps d).once id (once id c);
  }

  machine-Keeps :
      (s : Session E T) (o p : Option (Machine T))
      → Keeps (record s { machine = o }) (record s { machine = p })
  machine-Keeps s o p = record {
    left = λ t idle. (idle, refl);
    dues = λ t. refl;
    once = λ id c. c;
    ended = refl;
    rooted = refl;
  }

  pub killed-Keeps : (w : Wreck T) (s : Session E T) → Keeps s (killed w s).0
  killed-Keeps w s = elim (Option-cases s.machine) [
    | inl e ↦ rw (e, killed) (machine-Keeps s none s.machine)
    | inr (m, e) ↦ elim (Outcome-cases (kill m Reason.killed)) [
      | inl ((m', fx), h) ↦ rw (e, killed) (rw h (machine-Keeps s (some m) (some m')))
      | inr (v, h) ↦ rw (e, killed) (rw h (machine-Keeps s (some m) none))
    ]
  ]

  -- Whatever ends a running session, and also when the machine was wrecked by a panic and answers
  -- anything at all: behind `die` the cause is the one given, no ticket waits, each ticket that waited
  -- has been sent one completion, every branch has ended, and none has closed its channel twice.
  pub die-Released :
      (w : Wreck T) (s : Session E T) (e : Failure E)
      → s.terminated ≡ false
      → Released s (die w s e) × ((die w s e).cause ≡ some e)
  unfolding die
  die-Released w s e running =
      let k = killed w (commit_cause s e) in
      let d = deliver w k.0 k.1 in
      let v : Keeps (commit_cause s e) d =
        Keeps-trans (commit_cause s e) k.0 d (killed-Keeps w (commit_cause s e))
          (deliver-Keeps w k.0 k.1) in
      subst (λ (x : Session E T). Released s x × (x.cause ≡ some e))
        (sym (if_false s.terminated s (sweep d) running))
        (sweep-Released s d v.dues v.once v.ended, (sweep-Keeps d).rooted ∙ v.rooted)

  commit_fatal-dues :
      (s : Session E T) (f : Option Fatality) (t : ℕ) → due (commit_fatal s f) t ≡ due s t
  commit_fatal-dues s none t = refl
  commit_fatal-dues s (some f) t = elim (Bool-cases s.terminated) [
    | inl e ↦ ap (λ (x : Session E T). due x t) (if_true s.terminated _ _ e)
    | inr e ↦ ap (λ (x : Session E T). due x t) (if_false s.terminated _ _ e)
  ]

  commit_fatal-branches :
      (s : Session E T) (f : Option Fatality) → (commit_fatal s f).branches ≡ s.branches
  commit_fatal-branches s none = refl
  commit_fatal-branches s (some f) = elim (Bool-cases s.terminated) [
    | inl e ↦ ap (λ (x : Session E T). x.branches) (if_true s.terminated _ _ e)
    | inr e ↦ ap (λ (x : Session E T). x.branches) (if_false s.terminated _ _ e)
  ]

  delivered-dues :
      (w : Wreck T) (s : Session E T) (fx : Effects T) (t : ℕ)
      → due (deliver w (commit_fatal s fx.fatal) fx) t ≡ due s t
  delivered-dues w s fx t =
      (deliver-Keeps w (commit_fatal s fx.fatal) fx).dues t ∙ commit_fatal-dues s fx.fatal t

  delivered-once :
      (w : Wreck T) (s : Session E T) (fx : Effects T) (id : ℕ)
      → ClosesOnce (s.branches id)
      → ClosesOnce ((deliver w (commit_fatal s fx.fatal) fx).branches id)
  delivered-once w s fx id c = (deliver-Keeps w (commit_fatal s fx.fatal) fx).once id (
      subst (λ (g : ℕ → Option (BranchState E)). ClosesOnce (g id))
        (sym (commit_fatal-branches s fx.fatal)) c)

  -- Every call of the machine ends with its effects applied: then what is sent or due to each ticket
  -- is what it was, and a session that is over has released all.
  pub apply_effects-dues :
      (w : Wreck T) (s : Session E T) (fx : Effects T) (t : ℕ)
      → due (apply_effects w s fx) t ≡ due s t
  unfolding apply_effects
  apply_effects-dues w s fx t =
      let d = deliver w (commit_fatal s fx.fatal) fx in
      elim (Bool-cases d.terminated) [
        | inl e ↦
            ap (λ (x : Session E T). due x t) (if_true d.terminated (sweep d) d e)
            ∙ (sweep-Keeps d).dues t
            ∙ delivered-dues w s fx t
        | inr e ↦
            ap (λ (x : Session E T). due x t) (if_false d.terminated (sweep d) d e)
            ∙ delivered-dues w s fx t
      ]

  -- When the effects of a call, or the calls before it, have terminated the session, then behind
  -- `applyLockedFx` no ticket waits, each has been sent what was sent or due before, every branch has
  -- ended, and none has closed its channel twice.
  pub apply_effects-Released :
      (w : Wreck T) (s : Session E T) (fx : Effects T)
      → (apply_effects w s fx).terminated ≡ true
      → Released s (apply_effects w s fx)
  unfolding apply_effects
  apply_effects-Released w s fx over =
      let d = deliver w (commit_fatal s fx.fatal) fx in
      elim (Bool-cases d.terminated) [
        | inl e ↦
            subst (λ (x : Session E T). Released s x) (sym (if_true d.terminated (sweep d) d e))
              (sweep-Released s d (delivered-dues w s fx) (delivered-once w s fx) e)
        | inr e ↦
            let same =
              ap (λ (x : Session E T). x.terminated) (if_false d.terminated (sweep d) d e) in
            absurd (ground (arith, same, e, over))
      ]

  pub Released-machine :
      (s x : Session E T) (o : Option (Machine T))
      → Released (record s { machine = o }) x
      → Released s x
  Released-machine s x o v = record {
    over = v.over;
    idle = v.idle;
    answered = v.answered;
    ended = v.ended;
    once = v.once;
  }

  routed-Released :
      (w : Wreck T) (s : Session E T) (o : Outcome Violation (Machine T × Effects T))
      → s.terminated ≡ false
      → (routed w s o).terminated ≡ true
      → Released s (routed w s o)
  routed-Released w s (ok (m, fx)) running over =
      Released-machine s _ (some m)
        (apply_effects-Released w (record s { machine = some m }) fx over)
  routed-Released w s (err v) running over =
      Released-machine s _ none
        (die-Released w (record s { machine = none }) Failure.panicked running).0

  route_with-Released :
      (w : Wreck T) (s : Session E T) (env : Envelope) (msg : T) (o : Option (Machine T))
      → s.terminated ≡ false
      → (route_with w s env msg o).terminated ≡ true
      → Released s (route_with w s env msg o)
  route_with-Released w s env msg none running over = (die-Released w s Failure.panicked running).0
  route_with-Released w s env msg (some m) running over =
      routed-Released w s (route m env msg) running over

  -- A message is routed in a running session, and the session is over behind it: by a fatality of the
  -- machine, or by a panic of it that the read loop recovers. Then no ticket waits, each has been sent
  -- what was sent or due before, every branch has ended, and none has closed its channel twice.
  pub route_one-Released :
      (w : Wreck T) (s : Session E T) (env : Envelope) (msg : T)
      → s.terminated ≡ false
      → (route_one w s env msg).terminated ≡ true
      → Released s (route_one w s env msg)
  unfolding route_one
  route_one-Released w s env msg running over =
      route_with-Released w s env msg s.machine running over

  pub die-dues :
      (w : Wreck T) (s : Session E T) (e : Failure E) (t : ℕ) → due (die w s e) t ≡ due s t
  unfolding die
  die-dues w s e t =
      let k = killed w (commit_cause s e) in
      let d = deliver w k.0 k.1 in
      elim (Bool-cases s.terminated) [
        | inl over ↦ ap (λ (x : Session E T). due x t) (if_true s.terminated s (sweep d) over)
        | inr running ↦
            ap (λ (x : Session E T). due x t) (if_false s.terminated s (sweep d) running)
            ∙ (sweep-Keeps d).dues t
            ∙ (deliver-Keeps w k.0 k.1).dues t
            ∙ (killed-Keeps w (commit_cause s e)).dues t
      ]

  routed-dues :
      (w : Wreck T) (s : Session E T) (o : Outcome Violation (Machine T × Effects T)) (t : ℕ)
      → due (routed w s o) t ≡ due s t
  routed-dues w s (ok (m, fx)) t = apply_effects-dues w (record s { machine = some m }) fx t
  routed-dues w s (err v) t = die-dues w (record s { machine = none }) Failure.panicked t

  route_with-dues :
      (w : Wreck T) (s : Session E T) (env : Envelope) (msg : T) (o : Option (Machine T)) (t : ℕ)
      → due (route_with w s env msg o) t ≡ due s t
  route_with-dues w s env msg none t = die-dues w s Failure.panicked t
  route_with-dues w s env msg (some m) t = routed-dues w s (route m env msg) t

  -- Routing a message, whatever the message and also when the machine panics, loses no completion and
  -- sends none twice: for every ticket the completions sent and the one that it waits for are as many
  -- as before.
  pub route_one-due :
      (w : Wreck T) (s : Session E T) (env : Envelope) (msg : T) (t : ℕ)
      → due (route_one w s env msg) t ≡ due s t
  unfolding route_one
  route_one-due w s env msg t = route_with-dues w s env msg s.machine t
