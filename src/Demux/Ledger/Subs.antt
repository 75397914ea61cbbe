-- ===== src/Demux/Ledger/Subs.antt =====
-- Writes to subscriptions and follows, against their part of the accounting.
use ami.Base.{
  ℕ, suc, ◌+◌, ◌-◌, ◌≤◌, ◌≡◌, refl, ap, List, [], ◌∷◌, Option, some, none, arith, Map, All-insert,
  All-delete, All-lookup, lookup, insert, delete, total-insert, total-insert_new, total-delete,
  number_eq, length, length-append, ok,
}
use ami.Demux.Types.{Caps}
use ami.Demux.Machine.{Subscription, Follow, sub_charge, follow_charge}
use ami.Demux.Queue.{Queue, Entry, len, push, pop}
use ami.Demux.Queue
use ami.Demux.Queue.Fifo.{
  contents, charge, len-contents, contents-push, push-IsValid, pop_front, empty-IsValid,
}
use ami.Demux.Ledger.{QueueFits, SubFits, FollowFits, SubLedger}

module _ {T : Type 0} where
  pub empty-QueueFits : (caps : Caps) → QueueFits caps (Queue.empty {T = T})
  unfolding len
  empty-QueueFits caps = record { valid = empty-IsValid; few = omega arith; light = omega arith }

  pub push-QueueFits :
      (caps : Caps) (q : Queue T) (msg : T) (size : ℕ)
      → QueueFits caps q
      → suc (len q) ≤ caps.items
      → q.bytes + size ≤ caps.bytes
      → QueueFits caps (push q msg size)
  push-QueueFits caps q msg size v h k = record {
    valid = push-IsValid q msg size v.valid;
    few = omega (
      arith,
      len-contents q,
      len-contents (push q msg size),
      ap length (contents-push q msg size v.valid),
      length-append (contents q) (record { msg = some msg; size = size } ∷ []),
    );
    light = unfold push in k;
  }

  -- What a pop from a queue with entries returns: the charge is part of the queue's bytes.
  pub record Popped (caps : Caps) (q : Queue T) : Type 0 where
    pub rest : Queue T
    pub msg : Option T
    pub size : ℕ
    pub popped : pop q ≡ ok (rest, msg, size)
    pub fits : QueueFits caps rest
    pub balance : rest.bytes + size ≡ q.bytes

  pub pop-Popped : (caps : Caps) (q : Queue T) → QueueFits caps q → 1 ≤ len q → Popped caps q
  pop-Popped caps q v h = go (contents q) refl
    where
      go : (es : List (Entry T)) → contents q ≡ es → Popped caps q
      go [] e = absurd (omega (arith, len-contents q, ap length e))
      go (x ∷ xs) e =
          let (p, c, w) = pop_front q x xs v.valid e in
          record {
            rest = _;
            msg = x.msg;
            size = x.size;
            popped = p;
            fits = record {
              valid = w;
              few = omega (
                arith,
                v.few,
                len-contents q,
                ap length e,
                len-contents (Queue.released q x),
                ap length c,
              );
              light = omega (arith, v.light, v.valid.charged, ap charge e, w.charged, ap charge c);
            };
            balance = omega (arith, v.valid.charged, ap charge e, w.charged, ap charge c);
          }

module _ {T : Type 0} {subs : Map ℕ (Subscription T)} {follows : Map ℕ (Follow T)} {bytes limit : ℕ}
    (v : SubLedger subs follows bytes limit) where
  pub put_sub :
      (s old : Subscription T) (after : ℕ)
      → lookup s.id subs ≡ some old
      → QueueFits s.caps s.q
      → after + old.q.bytes ≡ bytes + s.q.bytes
      → after ≤ limit
      → SubLedger (insert s.id s subs) follows after limit
  put_sub s old after found fits eq room = record {
    subs_fit = All-insert SubFits s.id s subs (record { keyed = refl; fits = fits }) v.subs_fit;
    follows_fit = v.follows_fit;
    balance = omega (arith, total-insert sub_charge s.id s old subs found, v.balance);
    room = room;
  }

  pub add_sub :
      (s : Subscription T)
      → lookup s.id subs ≡ none
      → QueueFits s.caps s.q
      → s.q.bytes ≡ 0
      → SubLedger (insert s.id s subs) follows bytes limit
  add_sub s fresh fits zero_bytes = record {
    subs_fit = All-insert SubFits s.id s subs (record { keyed = refl; fits = fits }) v.subs_fit;
    follows_fit = v.follows_fit;
    balance = omega (arith, total-insert_new sub_charge s.id s subs fresh, v.balance);
    room = v.room;
  }

  pub drop_sub :
      (id : ℕ) (old : Subscription T)
      → lookup id subs ≡ some old
      → SubLedger (delete id subs) follows (bytes - old.q.bytes) limit
  drop_sub id old found = record {
    subs_fit = All-delete SubFits id subs v.subs_fit;
    follows_fit = v.follows_fit;
    balance = omega (arith, total-delete sub_charge id old subs found, v.balance);
    room = omega (arith, v.room);
  }

  pub put_follow :
      (f old : Follow T) (after : ℕ)
      → lookup f.id follows ≡ some old
      → QueueFits f.caps f.q
      → after + old.q.bytes ≡ bytes + f.q.bytes
      → after ≤ limit
      → SubLedger subs (insert f.id f follows) after limit
  put_follow f old after found fits eq room = record {
    subs_fit = v.subs_fit;
    follows_fit =
        All-insert FollowFits f.id f follows (record { keyed = refl; fits = fits }) v.follows_fit;
    balance = omega (arith, total-insert follow_charge f.id f old follows found, v.balance);
    room = room;
  }

  pub add_follow :
      (f : Follow T)
      → lookup f.id follows ≡ none
      → QueueFits f.caps f.q
      → f.q.bytes ≡ 0
      → SubLedger subs (insert f.id f follows) bytes limit
  add_follow f fresh fits zero_bytes = record {
    subs_fit = v.subs_fit;
    follows_fit =
        All-insert FollowFits f.id f follows (record { keyed = refl; fits = fits }) v.follows_fit;
    balance = omega (arith, total-insert_new follow_charge f.id f follows fresh, v.balance);
    room = v.room;
  }

  pub drop_follow :
      (id : ℕ) (old : Follow T)
      → lookup id follows ≡ some old
      → SubLedger subs (delete id follows) (bytes - old.q.bytes) limit
  drop_follow id old found = record {
    subs_fit = v.subs_fit;
    follows_fit = All-delete FollowFits id follows v.follows_fit;
    balance = omega (arith, total-delete follow_charge id old follows found, v.balance);
    room = omega (arith, v.room);
  }

  pub sub_held : (id : ℕ) (s : Subscription T) → lookup id subs ≡ some s → SubFits id s
  sub_held id s = All-lookup SubFits id s subs v.subs_fit

  pub follow_held : (id : ℕ) (f : Follow T) → lookup id follows ≡ some f → FollowFits id f
  follow_held id f = All-lookup FollowFits id f follows v.follows_fit
