-- ===== src/Client/Waiting/Runs.antt =====
-- The life of a session with a registered action, as a run of its steps.
use ami.Base.{
  ℕ, ◌≡◌, ◌≢◌, refl, ap, sym, subst, ◌∙◌, Bool, true, false, Option, Bytes, length, Outcome, ok,
  arith, inl, inr, nat_eq, nat_eq_iff, if◌then◌else◌, Bool-cases, err, ◌>>=◌, some, none, not, ◌&&◌,
}
use ami.Demux.Types.{Kind, Envelope, Effects, AdmitOptions, Violation, Completion}
use ami.Demux.Types as Demux
use ami.Demux.Machine.{Machine}
use ami.Demux.Pending.{admit}
use ami.Client.Message.{Message}
use ami.Client.Framer.{Error}
use ami.Client.Session.{Failure, BranchState, Wreck, apply_effects, die, route_one}
use ami.Client.Session.Release.{due, IsLeft}
use ami.Client.Session.Sending.{apply_effects-IsLeft, die-IsLeft, route_one-IsLeft}
use ami.Client.Session.Termination.{
  Released, die-Released, route_one-Released, apply_effects-Released, route_one-due,
  apply_effects-dues, die-dues, Released-machine,
}
use ami.Client.Dispatch.{Client, must, drop_waiter}
use ami.Client.Waiting.{AdmissionError, add_waiter, admitted, register_at, register}

-- From a running session, as long as the caller of the ticket waits for its completion. A message is
-- routed; the effects of another call are applied; the session dies; the machine answers a call without
-- effects, such as the commit of the write of this ticket or of another; it panics; another caller gives
-- up its ticket; another action is registered or refused; a branch is opened or forgotten.
pub data Step (t : ℕ) : Client → Client → Type 0 where
  routes :
      {s s' : Client} (w : Wreck Message) (env : Envelope) (msg : Message)
      → s.terminated ≡ false
      → s' ≡ route_one w s env msg
      → Step t s s'
  applies :
      {s s' : Client} (w : Wreck Message) (m : Option (Machine Message)) (fx : Effects Message)
      → s.terminated ≡ false
      → s' ≡ apply_effects w (record s { machine = m }) fx
      → Step t s s'
  dies :
      {s s' : Client} (w : Wreck Message) (e : Failure Error)
      → s.terminated ≡ false
      → s' ≡ die w s e
      → Step t s s'
  calls :
      {s s' : Client} (f : Machine Message → Outcome Violation (Machine Message))
      → s.terminated ≡ false
      → must s f ≡ ok s'
      → Step t s s'
  wrecks : {s s' : Client} → s.terminated ≡ false → s' ≡ record s { machine = none } → Step t s s'
  forgets :
      {s s' : Client} (u : ℕ) → s.terminated ≡ false → u ≢ t → s' ≡ drop_waiter s u → Step t s s'
  registers :
      {s s' : Client} (id : Bytes) (kind : Kind) (o : AdmitOptions Message)
      (r : Outcome AdmissionError ℕ)
      → s.terminated ≡ false
      → r ≢ ok t
      → register s id kind o ≡ ok (s', r)
      → Step t s s'
  tends :
      {s s' : Client} (branches : ℕ → Option (BranchState Error))
      → s.terminated ≡ false
      → s' ≡ record s { branches = branches }
      → Step t s s'

-- Any number of steps, in any order.
pub data Runs (t : ℕ) (start : Client) : Client → Type 0 where
  here : Runs t start start
  next : {s s' : Client} → Runs t start s → Step t s s' → Runs t start s'

-- A step that leaves the ticket alone.
record Spares (t : ℕ) (s s' : Client) : Type 0 where
  waits : s'.waiting t ≡ s.waiting t
  sent : s'.channels t ≡ s.channels t
  runs : s'.terminated ≡ s.terminated

other_key : (t u : ℕ) → u ≢ t → nat_eq t u ≡ false
other_key t u n = elim (Bool-cases (nat_eq t u)) [
  | inl e ↦ absurd (n (sym ((nat_eq_iff t u).0 e)))
  | inr e ↦ e
]

Spares-path : {t : ℕ} {s : Client} (x y : Client) → y ≡ x → Spares t s x → Spares t s y
Spares-path {t} {s} x y e v = subst (λ (z : Client). Spares t s z) (sym e) v

pub ok-same : {V A : Type 0} (a b : A) → ◌≡◌ {A = Outcome V A} (ok a) (ok b) → a ≡ b
ok-same a b e = cc

Spares-refl : (t : ℕ) (s : Client) → Spares t s s
Spares-refl t s = record { waits = refl; sent = refl; runs = refl }

Spares-machine :
    (t : ℕ) (s : Client) (o : Option (Machine Message)) → Spares t s (record s { machine = o })
Spares-machine t s o = record { waits = refl; sent = refl; runs = refl }

must-Spares :
    (t : ℕ) (s s' : Client) (f : Machine Message → Outcome Violation (Machine Message))
    → must s f ≡ ok s'
    → Spares t s s'
must-Spares t s s' f h = at s.machine h
  where
    left_by :
        (o : Outcome Violation (Machine Message))
        → (o >>= λ m'. ok (record s { machine = some m' })) ≡ ok s'
        → Spares t s s'
    left_by (ok m) e =
        Spares-path (record s { machine = some m }) s' (sym (ok-same _ _ e))
          (Spares-machine t s (some m))
    left_by (err v) e = absurd (cc)

    at :
        (o : Option (Machine Message))
        → ◌≡◌ {A = Outcome Violation Client}
            (elim o [
              | none ↦ err Violation.dangling
              | some m ↦ f m >>= λ m'. ok (record s { machine = some m' })
            ])
            (ok s')
        → Spares t s s'
    at none e = absurd (cc)
    at (some m) e = left_by (f m) e

add_waiter-Spares :
    (t u : ℕ) (s : Client)
    → ◌≢◌ {A = Outcome AdmissionError ℕ} (ok u) (ok t)
    → Spares t s (add_waiter s u)
add_waiter-Spares t u s n =
    let other = other_key t u (λ e. n (ap (λ (v : ℕ). ok v) e)) in
    record { waits = rw other refl; sent = rw other refl; runs = refl }

admitted-Spares :
    (t : ℕ) (s : Client) (x : Machine Message × Outcome Demux.Error ℕ)
    → (admitted s x).1 ≢ ok t
    → Spares t s (admitted s x).0
admitted-Spares t s (m, err e) n = Spares-machine t s (some m)
admitted-Spares t s (m, ok u) n =
    let v = add_waiter-Spares t u (record s { machine = some m }) n in
    record { waits = v.waits; sent = v.sent; runs = v.runs }

answer_path :
    (t : ℕ) (s s' : Client) (x : Client × Outcome AdmissionError ℕ) (r : Outcome AdmissionError ℕ)
    → (x.1 ≢ ok t → Spares t s x.0)
    → r ≢ ok t
    → ◌≡◌ {A = Outcome Violation (Client × Outcome AdmissionError ℕ)} (ok x) (ok (s', r))
    → Spares t s s'
answer_path t s s' x r v n h =
    let e = ok-same x (s', r) h in
    Spares-path x.0 s' (sym (ap (λ (y : Client × Outcome AdmissionError ℕ). y.0) e))
      (v (λ f. n (sym (ap (λ (y : Client × Outcome AdmissionError ℕ). y.1) e) ∙ f)))

register_at-Spares :
    (t : ℕ) (s s' : Client) (id : Bytes) (kind : Kind) (o : AdmitOptions Message)
    (machine : Option (Machine Message)) (r : Outcome AdmissionError ℕ)
    → r ≢ ok t
    → register_at s id kind o machine ≡ ok (s', r)
    → Spares t s s'
register_at-Spares t s s' id kind o none r n h = absurd (cc)
register_at-Spares t s s' id kind o (some m) r n h = entered (admit m id kind o) h
  where
    entered :
        (x : Outcome Violation (Machine Message × Outcome Demux.Error ℕ))
        → (x >>= λ y. ok (admitted s y)) ≡ ok (s', r)
        → Spares t s s'
    entered (ok x) e = answer_path t s s' (admitted s x) r (admitted-Spares t s x) n e
    entered (err v) e = absurd (cc)

register-Spares :
    (t : ℕ) (s s' : Client) (id : Bytes) (kind : Kind) (o : AdmitOptions Message)
    (r : Outcome AdmissionError ℕ)
    → r ≢ ok t
    → register s id kind o ≡ ok (s', r)
    → Spares t s s'
unfolding register
register-Spares t s s' id kind o r n h = by_state s.terminated h
  where
    by_state :
        (over : Bool)
        → (if over then ok (s, err AdmissionError.closed) else register_at s id kind o s.machine)
          ≡ ok (s', r)
        → Spares t s s'
    by_state true e = answer_path t s s' (s, err AdmissionError.closed) r (λ u. Spares-refl t s) n e
    by_state false e = register_at-Spares t s s' id kind o s.machine r n e

drop_waiter-Spares : (t u : ℕ) (s : Client) → u ≢ t → Spares t s (drop_waiter s u)
drop_waiter-Spares t u s n =
    let other = other_key t u n in
    record { waits = rw other (keep (s.waiting t)); sent = refl; runs = refl }
  where
    keep : (b : Bool) → (b && not false) ≡ b
    keep true = refl
    keep false = refl

Spares-due : (t : ℕ) (s s' : Client) → Spares t s s' → due s' t ≡ due s t
Spares-due t s s' v = rw (v.waits) (rw (v.sent) refl)

Spares-IsLeft : (t : ℕ) (s s' : Client) → Spares t s s' → s.waiting t ≡ false → IsLeft s s' t
Spares-IsLeft t s s' v idle = (v.waits ∙ idle, v.sent)

Spares-Released :
    (t : ℕ) (s s' : Client)
    → Spares t s s'
    → s.terminated ≡ false
    → s'.terminated ≡ true
    → Released s s'
Spares-Released t s s' v r over = absurd (ground (arith, v.runs, r, over))

-- What a step does for its ticket: as much is sent or due as before, a ticket that does not wait is
-- sent nothing, and a session that is over has released all.
record Serves (t : ℕ) (s s' : Client) : Type 0 where
  dues : due s' t ≡ due s t
  left : s.waiting t ≡ false → IsLeft s s' t
  released : s'.terminated ≡ true → Released s s'

Spares-Serves : (t : ℕ) (s s' : Client) → Spares t s s' → s.terminated ≡ false → Serves t s s'
Spares-Serves t s s' v r = record {
  dues = Spares-due t s s' v;
  left = Spares-IsLeft t s s' v;
  released = Spares-Released t s s' v r;
}

Serves-path : (t : ℕ) (s x y : Client) → y ≡ x → Serves t s x → Serves t s y
Serves-path t s x y e v = subst (λ (z : Client). Serves t s z) (sym e) v

effects-Serves :
    (t : ℕ) (w : Wreck Message) (s : Client) (m : Option (Machine Message)) (fx : Effects Message)
    → Serves t s (apply_effects w (record s { machine = m }) fx)
effects-Serves t w s m fx = record {
  dues = apply_effects-dues w (record s { machine = m }) fx t;
  left = λ idle. apply_effects-IsLeft w (record s { machine = m }) fx t idle;
  released =
      λ over. Released-machine s _ m (apply_effects-Released w (record s { machine = m }) fx over);
}

Step-Serves : {t : ℕ} {s s' : Client} → Step t s s' → Serves t s s'
Step-Serves {t} {s} {s'} (Step.routes w env msg r e) =
    Serves-path t s (route_one w s env msg) s' e (record {
      dues = route_one-due w s env msg t;
      left = λ idle. route_one-IsLeft w s env msg t idle;
      released = λ over. route_one-Released w s env msg r over;
    })
Step-Serves {t} {s} {s'} (Step.applies w m fx r e) =
    Serves-path t s (apply_effects w (record s { machine = m }) fx) s' e (effects-Serves t w s m fx)
Step-Serves {t} {s} {s'} (Step.dies w f r e) = Serves-path t s (die w s f) s' e (record {
  dues = die-dues w s f t;
  left = λ idle. die-IsLeft w s f t idle;
  released = λ over. (die-Released w s f r).0;
})
Step-Serves {t} {s} {s'} (Step.calls f r h) = Spares-Serves t s s' (must-Spares t s s' f h) r
Step-Serves {t} {s} {s'} (Step.wrecks r e) =
    Spares-Serves t s s' (Spares-path _ s' e (Spares-machine t s none)) r
Step-Serves {t} {s} {s'} (Step.forgets u r n e) =
    Spares-Serves t s s' (Spares-path (drop_waiter s u) s' e (drop_waiter-Spares t u s n)) r
Step-Serves {t} {s} {s'} (Step.registers id kind o answer r n h) =
    Spares-Serves t s s' (register-Spares t s s' id kind o answer n h) r
Step-Serves {t} {s} {s'} (Step.tends branches r e) =
    Spares-Serves t s s'
      (Spares-path (record s { branches = branches }) s' e
        (record { waits = refl; sent = refl; runs = refl }))
      r

pub Runs-due : {t : ℕ} {start s : Client} → Runs t start s → due s t ≡ due start t
Runs-due Runs.here = refl
Runs-due (Runs.next run step) = (Step-Serves step).dues ∙ Runs-due run

-- Once a ticket does not wait, its channel stays as it is.
pub Runs-IsLeft :
    {t : ℕ} {start s : Client} → Runs t start s → start.waiting t ≡ false → IsLeft start s t
Runs-IsLeft Runs.here idle = (idle, refl)
Runs-IsLeft (Runs.next run step) idle =
    let v = Runs-IsLeft run idle in let u = (Step-Serves step).left v.0 in (u.0, u.1 ∙ v.1)

pub Runs-answered :
    (t : ℕ) (start s : Client)
    → start.terminated ≡ false
    → due start t ≡ 1
    → Runs t start s
    → s.terminated ≡ true
    → (s.waiting t ≡ false) × (length (s.channels t) ≡ 1)
Runs-answered t start s running one Runs.here over = absurd (ground (arith, running, over))
Runs-answered t start s running one (Runs.next run step) over =
    let v = (Step-Serves step).released over in (v.idle t, v.answered t ∙ Runs-due run ∙ one)
