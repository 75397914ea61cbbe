-- ===== src/Client/Waiting/Answers.antt =====
-- A registered action is answered.
use ami.Base.{
  ℕ, ◌+◌, List, [], ◌∷◌, ◌++◌, ◌≡◌, refl, ap, sym, subst, ◌∙◌, inl, inr, Bool, true, false, Option,
  some, none, Bytes, nat_eq_iff, length, if◌then◌else◌, Bool-cases, Outcome, ok, err, ◌>>=◌, arith,
}
use ami.Demux.Types.{Kind, Envelope, Completion, Effects, AdmitOptions, Violation}
use ami.Demux.Types as Demux
use ami.Demux.Machine.{Machine}
use ami.Demux.Pending.{admit}
use ami.Demux.Route.{route}
use ami.Client.Message.{Message}
use ami.Client.Session.Release.{one_if, due}
use ami.Client.Dispatch.{Client}
use ami.Client.Session.{Wreck, route_one}
use ami.Client.Session.Sending.{first_for, Sent, route_one-Sent}
use ami.Client.Waiting.Runs.{Runs, Runs-due, Runs-IsLeft, Runs-answered, ok-same}
use ami.Client.Waiting.{AdmissionError, add_waiter, admitted, register_at, register}

-- The ticket waits, and the session runs.
record HasWaiter (s : Client) (t : ℕ) : Type 0 where
  running : s.terminated ≡ false
  one : due s t ≡ 1

add_waiter-HasWaiter : (s : Client) (t : ℕ) → s.terminated ≡ false → HasWaiter (add_waiter s t) t
add_waiter-HasWaiter s t running = record {
  running = running;
  one = rw ((nat_eq_iff t t).1 refl) refl;
}

admitted-HasWaiter :
    (s s' : Client) (t : ℕ) (x : Machine Message × Outcome Demux.Error ℕ)
    → s.terminated ≡ false
    → ◌≡◌ {A = Outcome Violation (Client × Outcome AdmissionError ℕ)}
        (ok (admitted s x))
        (ok (s', ok t))
    → HasWaiter s' t
admitted-HasWaiter s s' t (m, err e) running h = absurd (ground (arith, h))
admitted-HasWaiter s s' t (m, ok u) running h =
    let e = ok-same _ _ h in
    let same : add_waiter (record s { machine = some m }) u ≡ s' =
      ap (λ (x : Client × Outcome AdmissionError ℕ). x.0) e in
    let ticket : u ≡ t = ok-same u t (ap (λ (x : Client × Outcome AdmissionError ℕ). x.1) e) in
    subst (λ (v : ℕ). HasWaiter s' v) ticket
      (subst (λ (x : Client). HasWaiter x u) same
        (add_waiter-HasWaiter (record s { machine = some m }) u running))

entered-HasWaiter :
    (s s' : Client) (t : ℕ) (o : Outcome Violation (Machine Message × Outcome Demux.Error ℕ))
    → s.terminated ≡ false
    → (o >>= λ x. ok (admitted s x)) ≡ ok (s', ok t)
    → HasWaiter s' t
entered-HasWaiter s s' t (ok x) running h = admitted-HasWaiter s s' t x running h
entered-HasWaiter s s' t (err v) running h = absurd (cc)

machine-HasWaiter :
    (s s' : Client) (t : ℕ) (id : Bytes) (kind : Kind) (o : AdmitOptions Message)
    (machine : Option (Machine Message))
    → s.terminated ≡ false
    → register_at s id kind o machine ≡ ok (s', ok t)
    → HasWaiter s' t
machine-HasWaiter s s' t id kind o none running h = absurd (cc)
machine-HasWaiter s s' t id kind o (some m) running h =
    entered-HasWaiter s s' t (admit m id kind o) running h

register-HasWaiter :
    (s s' : Client) (t : ℕ) (id : Bytes) (kind : Kind) (o : AdmitOptions Message)
    → register s id kind o ≡ ok (s', ok t)
    → HasWaiter s' t
unfolding register
register-HasWaiter s s' t id kind o h = elim (Bool-cases s.terminated) [
  | inl over ↦ absurd (ground (arith, over, h))
  | inr running ↦
      machine-HasWaiter s s' t id kind o s.machine running
        (sym (choice s.terminated _ _ running) ∙ h)
]
  where
    choice : {A : Type 0} (b : Bool) (x y : A) → b ≡ false → (if b then x else y) ≡ y
    choice b x y e = rw e refl

-- An action is registered under a ticket, and its caller waits for the completion. The session runs
-- until it is over: any messages, effects, deaths, calls of the machine, its panics, other callers that
-- register, wait or give up, in any order. Then the ticket waits no more, and exactly one completion has
-- been sent to it.
pub register-answered :
    (s s' over : Client) (t : ℕ) (id : Bytes) (kind : Kind) (o : AdmitOptions Message)
    → register s id kind o ≡ ok (s', ok t)
    → Runs t s' over
    → over.terminated ≡ true
    → (over.waiting t ≡ false) × (length (over.channels t) ≡ 1)
register-answered s s' over t id kind o h run ended =
    let v = register-HasWaiter s s' t id kind o h in
    Runs-answered t s' over v.running v.one run ended

empty_channel : (s : Client) (t : ℕ) → due s t ≡ 1 → s.waiting t ≡ true → s.channels t ≡ []
empty_channel s t one waits =
    let counted : length (s.channels t) + 1 ≡ 1 =
      sym (ap (λ (b : Bool). length (s.channels t) + one_if b) waits) ∙ one in
    nothing_in (s.channels t) (omega (arith, counted))
  where
    nothing_in : {A : Type 0} (xs : List A) → length xs ≡ 0 → xs ≡ []
    nothing_in [] h = refl
    nothing_in (x ∷ xs) h = absurd (omega (arith, h))

-- An action is registered under a ticket, its caller waits, and after any run of the session the machine
-- routes a message and returns a completion for the ticket. Then, however the session runs on or ends,
-- the first such completion is what the channel of the ticket holds, and nothing else, and the ticket
-- waits no more.
pub register-routed :
    (s s' mid late : Client) (t : ℕ) (id : Bytes) (kind : Kind) (o : AdmitOptions Message)
    (w : Wreck Message) (env : Envelope) (msg : Message) (m m' : Machine Message)
    (fx : Effects Message) (c : Completion Message)
    → register s id kind o ≡ ok (s', ok t)
    → Runs t s' mid
    → mid.waiting t ≡ true
    → mid.machine ≡ some m
    → route m env msg ≡ ok (m', fx)
    → first_for t fx.complete ≡ some c
    → Runs t (route_one w mid env msg) late
    → (late.waiting t ≡ false) × (late.channels t ≡ c ∷ [])
register-routed s s' mid late t id kind o w env msg m m' fx c h before waits has routes first
      after =
    let v = register-HasWaiter s s' t id kind o h in
    let none_yet = empty_channel mid t (Runs-due before ∙ v.one) waits in
    let sent =
      subst (λ x. Sent mid (route_one w mid env msg) t x) first
        (route_one-Sent w mid env msg m m' fx t has routes waits) in
    let left = Runs-IsLeft after sent.0 in
    (left.0, left.1 ∙ sent.1 ∙ ap (λ (xs : List (Completion Message)). xs ++ (c ∷ [])) none_yet)
