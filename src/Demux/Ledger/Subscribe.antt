-- ===== src/Demux/Ledger/Subscribe.antt =====
-- A new machine is sound, and `Subscribe` keeps it so.
use ami.Base.{
  ◌≡◌, ◌≢◌, ◌≤◌, ◌<◌, ℕ, ◌+◌, ◌++◌, [], ◌∷◌, some, refl, true, false, length, ◌⊎◌, List, Option,
  none, arith, Bytes, lookup, number_eq, string_eq, ok, err,
}
use ami.Demux.Types.{Caps, Error, Limits, Reason, Phase}
use ami.Demux.Machine.{Machine, new}
use ami.Demux.Names.{fold_set}
use ami.Demux.Queue
use ami.Demux.Ledger.{IsSound}

module _ {T : Type 0} where
  -- Why `Subscribe` refuses with this error.
  abbrev pub Refusal : Machine T → List Bytes → Caps → Error → Type 0
  Refusal m events caps e =
      ((e ≡ Error.dead) × (m.dead ≡ true))
      ⊎ ((e ≡ Error.invalid_options) × ((caps.items ≡ 0) ⊎ (caps.bytes ≡ 0)))
      ⊎ (fold_set m.lim events ≡ err e)
      ⊎ ((e ≡ Error.subscription_limit) × (m.lim.max_subscriptions ≤ length m.sub_order))

  -- What `Subscribe` has tested when it accepts the names.
  pub record Accepted (m : Machine T) (events : List Bytes) (caps : Caps)
      (names : Option (List Bytes)) : Type 0 where
    pub live : m.dead ≡ false
    pub folded : fold_set m.lim events ≡ ok names
    pub items : 0 < caps.items
    pub bytes : 0 < caps.bytes
    pub room : length m.sub_order < m.lim.max_subscriptions

  -- The machine with a new branch under the next id: an active subscription to these names with these
  -- caps and an empty queue, the last of the order. All other branches are as they were.
  pub record Registered (m : Machine T) (names : Option (List Bytes)) (caps : Caps) (m' : Machine T)
      : Type 0 where
    pub counted : m'.next_branch ≡ m.next_branch + 1
    pub ordered : m'.sub_order ≡ m.sub_order ++ (m.next_branch ∷ [])
    pub branch :
        lookup m.next_branch m'.sub_by_id
        ≡ some (record {
          id = m.next_branch;
          phase = Phase.active;
          reason = Reason.none;
          names = names;
          caps = caps;
          q = Queue.empty;
        })
    pub others : (j : ℕ) → j ≢ m.next_branch → lookup j m'.sub_by_id ≡ lookup j m.sub_by_id
    pub charged : m'.sub_bytes ≡ m.sub_bytes
    pub live : m'.dead ≡ false

  -- A new machine is sound, whatever its limits.
  new-IsSound : (lim : Limits) → IsSound (new {T = T} lim)
  unfolding new
  new-IsSound lim = record {
    subs = record { subs_fit = tt; follows_fit = tt; balance = refl; room = omega arith };
    lists = record { unique = tt; lists_fit = tt; spent = tt; balance = refl; room = omega arith };
    slots = record {
      ticketed = tt;
      recorded = tt;
      held_sum = refl;
      public_sum = refl;
      room = omega arith;
    };
    quiet = λ d. absurd (cc);
  }
