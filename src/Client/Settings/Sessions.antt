-- ===== src/Client/Settings/Sessions.antt =====
-- When the limits of a session are accepted.
use ami.Base.{ℕ, zero, suc, ◌<◌, ◌≡◌, ◌↔◌, refl, sym, ◌∙◌, true, ltb, ok, arith}
use ami.Demux.Types.{ℤ, pos, negsuc}
use ami.Demux.Types as Demux
use ami.Client.Settings.{
  pick, Setting, SessionConfig, SessionLimits, validate_machine, resolve_session,
}
use ami.Client.Settings.Resolution.{step, ok-injective}

-- The limit is not negative.
abbrev pub NotNegative : ℤ → Type 0
NotNegative (pos n) = Unit
NotNegative (negsuc n) = ⊥

pub record AllSet (l : SessionConfig) : Type 0 where
  pub write_admission_lem : NotNegative l.write_admission
  pub write_attempt_lem : NotNegative l.write_attempt
  pub retirement_lifetime_lem : NotNegative l.retirement_lifetime
  pub max_pending_lem : NotNegative l.max_pending
  pub max_retirement_lem : NotNegative l.max_retirement
  pub max_subscriptions_lem : NotNegative l.max_subscriptions
  pub subscription_queue_items_lem : NotNegative l.subscription_queue_items
  pub subscription_queue_bytes_lem : NotNegative l.subscription_queue_bytes
  pub max_subscription_bytes_lem : NotNegative l.max_subscription_bytes
  pub max_matcher_names_lem : NotNegative l.max_matcher_names
  pub max_matcher_bytes_lem : NotNegative l.max_matcher_bytes
  pub max_lists_lem : NotNegative l.max_lists
  pub list_queue_items_lem : NotNegative l.list_queue_items
  pub list_queue_bytes_lem : NotNegative l.list_queue_bytes
  pub list_observed_bytes_lem : NotNegative l.list_observed_bytes
  pub max_list_bytes_lem : NotNegative l.max_list_bytes

pick-NotNegative :
    (name : Setting) (set : ℤ) (default v : ℕ) → pick name set default ≡ ok v → NotNegative set
pick-NotNegative name (pos n) default v h = tt
pick-NotNegative name (negsuc n) default v h = absurd (cc)

abbrev chosen : ℤ → ℕ → ℕ
chosen (pos zero) default = default
chosen (pos (suc n)) default = suc n
chosen (negsuc n) default = default

pick-chosen :
    (name : Setting) (set : ℤ) (default : ℕ)
    → NotNegative set
    → pick name set default ≡ ok (chosen set default)
pick-chosen name (pos zero) default h = refl
pick-chosen name (pos (suc n)) default h = refl
pick-chosen name (negsuc n) default h = absurd h

chosen-positive : (set : ℤ) (default : ℕ) → 0 < default → ltb 0 (chosen set default) ≡ true
chosen-positive (pos zero) default d = ground arith
chosen-positive (pos (suc n)) default d = ground arith
chosen-positive (negsuc n) default d = ground arith

resolve_session-AllSet :
    (l : SessionConfig) (s : SessionLimits) → resolve_session l ≡ ok s → AllSet l
unfolding resolve_session
resolve_session-AllSet l s h =
    let (v0, p0, h) = step _ l.write_admission _ _ _ h in
    let (v1, p1, h) = step _ l.write_attempt _ _ _ h in
    let (v2, p2, h) = step _ l.retirement_lifetime _ _ _ h in
    let (v3, p3, h) = step _ l.max_pending _ _ _ h in
    let (v4, p4, h) = step _ l.max_retirement _ _ _ h in
    let (v5, p5, h) = step _ l.max_subscriptions _ _ _ h in
    let (v6, p6, h) = step _ l.subscription_queue_items _ _ _ h in
    let (v7, p7, h) = step _ l.subscription_queue_bytes _ _ _ h in
    let (v8, p8, h) = step _ l.max_subscription_bytes _ _ _ h in
    let (v9, p9, h) = step _ l.max_matcher_names _ _ _ h in
    let (v10, p10, h) = step _ l.max_matcher_bytes _ _ _ h in
    let (v11, p11, h) = step _ l.max_lists _ _ _ h in
    let (v12, p12, h) = step _ l.list_queue_items _ _ _ h in
    let (v13, p13, h) = step _ l.list_queue_bytes _ _ _ h in
    let (v14, p14, h) = step _ l.list_observed_bytes _ _ _ h in
    let (v15, p15, h) = step _ l.max_list_bytes _ _ _ h in
    record {
      write_admission_lem = pick-NotNegative _ l.write_admission _ v0 p0;
      write_attempt_lem = pick-NotNegative _ l.write_attempt _ v1 p1;
      retirement_lifetime_lem = pick-NotNegative _ l.retirement_lifetime _ v2 p2;
      max_pending_lem = pick-NotNegative _ l.max_pending _ v3 p3;
      max_retirement_lem = pick-NotNegative _ l.max_retirement _ v4 p4;
      max_subscriptions_lem = pick-NotNegative _ l.max_subscriptions _ v5 p5;
      subscription_queue_items_lem = pick-NotNegative _ l.subscription_queue_items _ v6 p6;
      subscription_queue_bytes_lem = pick-NotNegative _ l.subscription_queue_bytes _ v7 p7;
      max_subscription_bytes_lem = pick-NotNegative _ l.max_subscription_bytes _ v8 p8;
      max_matcher_names_lem = pick-NotNegative _ l.max_matcher_names _ v9 p9;
      max_matcher_bytes_lem = pick-NotNegative _ l.max_matcher_bytes _ v10 p10;
      max_lists_lem = pick-NotNegative _ l.max_lists _ v11 p11;
      list_queue_items_lem = pick-NotNegative _ l.list_queue_items _ v12 p12;
      list_queue_bytes_lem = pick-NotNegative _ l.list_queue_bytes _ v13 p13;
      list_observed_bytes_lem = pick-NotNegative _ l.list_observed_bytes _ v14 p14;
      max_list_bytes_lem = pick-NotNegative _ l.max_list_bytes _ v15 p15;
    }

machine_valid :
    (m : Demux.Limits)
    → ltb 0 m.max_pending ≡ true
    → ltb 0 m.max_subscriptions ≡ true
    → ltb 0 m.max_subscription_bytes ≡ true
    → ltb 0 m.max_lists ≡ true
    → ltb 0 m.max_list_bytes ≡ true
    → ltb 0 m.max_matcher_names ≡ true
    → ltb 0 m.max_matcher_bytes ≡ true
    → ltb 0 m.max_retirement ≡ true
    → ltb 0 m.retirement_lifetime ≡ true
    → validate_machine m ≡ ok tt
unfolding validate_machine
machine_valid m a b c d e f g h i =
    rw a (rw b (rw c (rw d (rw e (rw f (rw g (rw h (rw i refl))))))))

-- Every limit is the one that was set, or the default.
abbrev pub session : SessionConfig → SessionLimits
session l = record {
  write_admission = chosen l.write_admission 5000000000;
  write_attempt = chosen l.write_attempt 5000000000;
  sub_items = chosen l.subscription_queue_items 512;
  sub_bytes = chosen l.subscription_queue_bytes 2097152;
  list_items = chosen l.list_queue_items 4096;
  list_bytes = chosen l.list_queue_bytes 8388608;
  list_observed = chosen l.list_observed_bytes 33554432;
  machine = record {
    max_pending = chosen l.max_pending 256;
    max_subscriptions = chosen l.max_subscriptions 128;
    max_subscription_bytes = chosen l.max_subscription_bytes 33554432;
    max_lists = chosen l.max_lists 16;
    max_list_bytes = chosen l.max_list_bytes 67108864;
    max_matcher_names = chosen l.max_matcher_names 64;
    max_matcher_bytes = chosen l.max_matcher_bytes 4096;
    max_retirement = chosen l.max_retirement 384;
    retirement_lifetime = chosen l.retirement_lifetime 60000000000;
  };
}

session_valid : (l : SessionConfig) → validate_machine (session l).machine ≡ ok tt
session_valid l =
    machine_valid (session l).machine (chosen-positive l.max_pending 256 (omega arith))
      (chosen-positive l.max_subscriptions 128 (omega arith))
      (chosen-positive l.max_subscription_bytes 33554432 (omega arith))
      (chosen-positive l.max_lists 16 (omega arith))
      (chosen-positive l.max_list_bytes 67108864 (omega arith))
      (chosen-positive l.max_matcher_names 64 (omega arith))
      (chosen-positive l.max_matcher_bytes 4096 (omega arith))
      (chosen-positive l.max_retirement 384 (omega arith))
      (chosen-positive l.retirement_lifetime 60000000000 (omega arith))

accepted : (l : SessionConfig) → AllSet l → resolve_session l ≡ ok (session l)
unfolding resolve_session
accepted l v = rw (pick-chosen _ l.write_admission _ v.write_admission_lem) (
    rw (pick-chosen _ l.write_attempt _ v.write_attempt_lem) (
      rw (pick-chosen _ l.retirement_lifetime _ v.retirement_lifetime_lem) (
        rw (pick-chosen _ l.max_pending _ v.max_pending_lem) (
          rw (pick-chosen _ l.max_retirement _ v.max_retirement_lem) (
            rw (pick-chosen _ l.max_subscriptions _ v.max_subscriptions_lem) (
              rw (pick-chosen _ l.subscription_queue_items _ v.subscription_queue_items_lem) (
                rw (pick-chosen _ l.subscription_queue_bytes _ v.subscription_queue_bytes_lem) (
                  rw (pick-chosen _ l.max_subscription_bytes _ v.max_subscription_bytes_lem) (
                    rw (pick-chosen _ l.max_matcher_names _ v.max_matcher_names_lem) (
                      rw (pick-chosen _ l.max_matcher_bytes _ v.max_matcher_bytes_lem) (
                        rw (pick-chosen _ l.max_lists _ v.max_lists_lem) (
                          rw (pick-chosen _ l.list_queue_items _ v.list_queue_items_lem) (
                            rw (pick-chosen _ l.list_queue_bytes _ v.list_queue_bytes_lem) (
                              rw (pick-chosen _ l.list_observed_bytes _ v.list_observed_bytes_lem) (
                                rw (pick-chosen _ l.max_list_bytes _ v.max_list_bytes_lem)
                                  (rw (session_valid l) refl))))))))))))))))

-- The limits of a session are accepted exactly when none is negative, and then each is the one that
-- was set, or its documented default: the validation of the machine never refuses what has been
-- resolved.
pub resolve_session-session :
    (l : SessionConfig) (s : SessionLimits)
    → (resolve_session l ≡ ok s) ↔ (AllSet l × (s ≡ session l))
resolve_session-session l s = (
  λ h.
      let v = resolve_session-AllSet l s h in
      (v, ok-injective s (session l) (sym h ∙ accepted l v)),
  λ h. rw (h.1) (accepted l h.0),
)
