-- ===== src/Client/Session/Release.antt =====
-- Every waiter is released once, and every branch is ended once.
use ami.Base.{
  ℕ, ◌+◌, ◌≡◌, refl, ap, subst, ◌∙◌, inl, inr, Bool, true, false, not, ◌&&◌, List, [], ◌∷◌, ◌++◌,
  Option, some, none, nat_eq, nat_eq_iff, length, length-append, if◌then◌else◌, Bool-cases,
  Option-cases, arith,
}
use ami.Demux.Types.{Reason, Completion, Effects}
use ami.Client.Session.{
  Failure, BranchState, Session, Wreck, commit_terminal, put_branch, terminal_of, release,
  release_one, woken, wake_one, wake_all, deliver, undelivered, swept, sweep,
}

abbrev pub one_if : Bool → ℕ
one_if true = 1
one_if false = 0

-- The completions sent to a ticket, and the one that it waits for.
abbrev pub due : {E T : Type 0} → Session E T → ℕ → ℕ
due s t = length (s.channels t) + one_if (s.waiting t)

-- Every branch that has ended has closed its channel once, and no other has closed it.
abbrev pub ClosesOnce : {E : Type 0} → Option (BranchState E) → Type 0
ClosesOnce none = Unit
ClosesOnce (some b) = b.closes ≡ one_if b.terminal

abbrev pub HasEnded : {E : Type 0} → Option (BranchState E) → Type 0
HasEnded none = Unit
HasEnded (some b) = b.terminal ≡ true

module _ {E : Type 0} where
  commit_terminal-ClosesOnce :
      (cause : Option (Failure E)) (b : BranchState E) (reason : Reason)
      → b.closes ≡ one_if b.terminal
      → (commit_terminal cause b reason).closes ≡ one_if (commit_terminal cause b reason).terminal
  unfolding commit_terminal
  commit_terminal-ClosesOnce cause b reason h = elim (Bool-cases b.terminal) [
    | inl e ↦ ground (arith, e, h)
    | inr e ↦ ground (arith, e, h)
  ]

  commit_terminal-HasEnded :
      (cause : Option (Failure E)) (b : BranchState E) (reason : Reason)
      → (commit_terminal cause b reason).terminal ≡ true
  unfolding commit_terminal
  commit_terminal-HasEnded cause b reason = ground arith

  woken-ClosesOnce :
      (cause : Option (Failure E)) (b : BranchState E) (reason : Option Reason)
      → b.closes ≡ one_if b.terminal
      → ClosesOnce (some (woken cause b reason))
  woken-ClosesOnce cause b none h = h
  woken-ClosesOnce cause b (some reason) h =
      commit_terminal-ClosesOnce cause (record b { notified = true }) reason h

  swept-ClosesOnce :
      (cause : Option (Failure E)) (o : Option (BranchState E))
      → ClosesOnce o
      → ClosesOnce (swept cause o)
  swept-ClosesOnce cause none h = tt
  swept-ClosesOnce cause (some b) h = commit_terminal-ClosesOnce cause b Reason.client_dead h

  pub swept-HasEnded :
      (cause : Option (Failure E)) (o : Option (BranchState E)) → HasEnded (swept cause o)
  swept-HasEnded cause none = tt
  swept-HasEnded cause (some b) = commit_terminal-HasEnded cause b Reason.client_dead

-- The completion is sent where one was due.
sent_one :
    {T : Type 0} (xs : List (Completion T)) (c : Completion T) (waits same : Bool)
    → (same ≡ true → waits ≡ true)
    → length (if same then xs ++ (c ∷ []) else xs) + one_if (waits && not same)
      ≡ length xs + one_if waits
sent_one xs c true true h = omega (arith, length-append xs (c ∷ []))
sent_one xs c true false h = refl
sent_one xs c false true h = ground (arith, h refl)
sent_one xs c false false h = refl

sent_dead :
    {T : Type 0} (xs : List (Completion T)) (t : ℕ) (waits : Bool)
    → length (if waits then xs ++ (undelivered t ∷ []) else xs) + 0 ≡ length xs + one_if waits
sent_dead xs t true = omega (arith, length-append xs (undelivered t ∷ []))
sent_dead xs t false = refl

module _ {E T : Type 0} where
  -- A ticket that does not wait is sent nothing.
  abbrev pub IsLeft : Session E T → Session E T → ℕ → Type 0
  IsLeft s s' t = (s'.waiting t ≡ false) × (s'.channels t ≡ s.channels t)

  -- What a call leaves as it was: for each ticket what is sent or due, the channel of a ticket that does
  -- not wait, for each branch that it closes once, and a cause that has been committed.
  pub record Keeps (s s' : Session E T) : Type 0 where
    pub left : (t : ℕ) → s.waiting t ≡ false → IsLeft s s' t
    pub dues : (t : ℕ) → due s' t ≡ due s t
    pub once : (id : ℕ) → ClosesOnce (s.branches id) → ClosesOnce (s'.branches id)
    pub ended : s'.terminated ≡ s.terminated
    pub rooted : s'.cause ≡ s.cause

  pub Keeps-refl : (s : Session E T) → Keeps s s
  Keeps-refl s = record {
    left = λ t idle. (idle, refl);
    dues = λ t. refl;
    once = λ id c. c;
    ended = refl;
    rooted = refl;
  }

  pub Keeps-trans : (r s t : Session E T) → Keeps r s → Keeps s t → Keeps r t
  Keeps-trans r s t a b = record {
    left = λ u idle. let x = a.left u idle in let y = b.left u x.0 in (y.0, y.1 ∙ x.1);
    dues = λ u. b.dues u ∙ a.dues u;
    once = λ id c. b.once id (a.once id c);
    ended = b.ended ∙ a.ended;
    rooted = b.rooted ∙ a.rooted;
  }

  same_waits :
      (s : Session E T) (u t : ℕ) → s.waiting t ≡ true → nat_eq u t ≡ true → s.waiting u ≡ true
  same_waits s u t w e = rw ((nat_eq_iff u t).0 e) w

  other_ticket :
      {X : Type 0} (s : Session E T) (t u : ℕ) (x y : X)
      → s.waiting t ≡ false
      → s.waiting u ≡ true
      → (if nat_eq t u then x else y) ≡ y
  other_ticket s t u x y idle waits = elim (Bool-cases (nat_eq t u)) [
    | inl e ↦ absurd (ground (arith, same_waits s t u waits e, idle))
    | inr e ↦ rw e refl
  ]

  release_one-Keeps :
      (s : Session E T) (c : Completion T) → s.waiting c.ticket ≡ true → Keeps s (release_one s c)
  release_one-Keeps s c w = record {
    left = λ t idle.
        (rw idle refl, other_ticket s t c.ticket (s.channels t ++ (c ∷ [])) (s.channels t) idle w);
    dues = λ t.
        sent_one (s.channels t) c (s.waiting t) (nat_eq t c.ticket) (same_waits s t c.ticket w);
    once = λ id o. o;
    ended = refl;
    rooted = refl;
  }

  pub release-Keeps : (s : Session E T) (cs : List (Completion T)) → Keeps s (release s cs)
  unfolding release
  release-Keeps s [] = Keeps-refl s
  release-Keeps s (c ∷ cs) = elim (Bool-cases (s.waiting c.ticket)) [
    | inr idle ↦ rw idle (release-Keeps s cs)
    | inl waits ↦ rw waits (
        Keeps-trans s (release_one s c) (release (release_one s c) cs) (release_one-Keeps s c waits)
          (release-Keeps (release_one s c) cs))
  ]

  put_branch-once :
      (s : Session E T) (id u : ℕ) (b : BranchState E)
      → (u ≡ id → ClosesOnce (some b))
      → ClosesOnce (s.branches u)
      → ClosesOnce ((put_branch s id b).branches u)
  put_branch-once s id u b h k = elim (Bool-cases (nat_eq u id)) [
    | inl e ↦ rw e (h ((nat_eq_iff u id).0 e))
    | inr e ↦ rw e k
  ]

  wake_one-Keeps :
      (s : Session E T) (id : ℕ) (reason : Option Reason)
      → Keeps s (wake_one s id (s.branches id) reason)
  wake_one-Keeps s id reason = elim (Option-cases (s.branches id)) [
    | inl e ↦ rw (e, wake_one) (Keeps-refl s)
    | inr (b, e) ↦
        rw (e, wake_one)
          (record {
            left = λ t idle. (idle, refl);
            dues = λ t. refl;
            once = λ u c.
                put_branch-once s id u (woken s.cause b reason)
                  (λ same. woken-ClosesOnce s.cause b reason (
                    subst (λ (o : Option (BranchState E)). ClosesOnce o) (ap s.branches same ∙ e)
                      c))
                  c;
            ended = refl;
            rooted = refl;
          })
  ]

  wake_all-Keeps : (w : Wreck T) (s : Session E T) (ids : List ℕ) → Keeps s (wake_all w s ids)
  unfolding wake_all
  wake_all-Keeps w s [] = Keeps-refl s
  wake_all-Keeps w s (id ∷ ids) =
      Keeps-trans s (wake_one s id (s.branches id) (terminal_of w s id)) _
        (wake_one-Keeps s id (terminal_of w s id))
        (wake_all-Keeps w (wake_one s id (s.branches id) (terminal_of w s id)) ids)

  pub deliver-Keeps : (w : Wreck T) (s : Session E T) (fx : Effects T) → Keeps s (deliver w s fx)
  unfolding deliver
  deliver-Keeps w s fx =
      Keeps-trans s (release s fx.complete) _ (release-Keeps s fx.complete)
        (wake_all-Keeps w (release s fx.complete) fx.wakes)

  pub sweep-Keeps : (s : Session E T) → Keeps s (sweep s)
  unfolding sweep
  sweep-Keeps s = record {
    left = λ t idle. (refl, rw idle refl);
    dues = λ t. sent_dead (s.channels t) t (s.waiting t);
    once = λ id c. swept-ClosesOnce s.cause (s.branches id) c;
    ended = refl;
    rooted = refl;
  }
