-- ===== src/Demux/Route/Fanout.antt =====
-- internal/demux/route.go: the fan-out of an event to the ordinary subscriptions.
use ami.Base.{
  ℕ, ◌+◌, Bool, true, false, not, ◌&&◌, List, [], ◌∷◌, ltb, leb, if◌then◌else◌, number_eq, Outcome,
  ok, ◌>>=◌,
}
use ami.Demux.Types.{Envelope, Reason, Caps, Violation, Effects, is_active}
use ami.Demux.Machine.{Machine, Subscription, wake, save_sub, sub_at}
use ami.Demux.Names.{selects}
use ami.Demux.Queue.{Queue, len, push}
use ami.Demux.Death.{terminal_sub}

-- The variables of the loop of `fanout`.
pub record Spread (T : Type 0) : Type 0 where
  pub machine : Machine T
  pub effects : Effects T
  pub matched : Bool
  pub any_lagged : Bool

module _ {T : Type 0} where
  -- `reserveSubFamily`
  unfoldable pub reserve_sub_family : Machine T → Queue T → Caps → ℕ → Bool
  reserve_sub_family m q caps size =
      ltb (len q) caps.items
      && leb (q.bytes + size) caps.bytes
      && leb (m.sub_bytes + size) m.lim.max_subscription_bytes

  -- One round of the loop, at the subscription `s`.
  unfoldable pub spread_to : Spread T → Subscription T → Envelope → T → Outcome Violation (Spread T)
  spread_to x s env msg =
      if not (selects s.names env.name)
      then ok x
      else if reserve_sub_family x.machine s.q s.caps env.size
      then ok (record x {
        machine =
            save_sub (record x.machine { sub_bytes = x.machine.sub_bytes + env.size })
              (record s { q = push s.q msg env.size });
        effects = wake x.effects s.id;
        matched = true;
      })
      else (do
        (m, fx) ← terminal_sub x.machine s Reason.lagged x.effects
        ok (record { machine = m; effects = fx; matched = true; any_lagged = true }))

  unfoldable pub spread : List ℕ → Spread T → Envelope → T → Outcome Violation (Spread T)
  spread [] x env msg = ok x
  spread (id ∷ ids) x env msg = do
    s ← sub_at x.machine id
    y ← spread_to x s env msg
    spread ids y env msg

  -- `compactOrder`
  unfoldable pub live_order : Machine T → List ℕ → Outcome Violation (List ℕ)
  live_order m [] = ok []
  live_order m (id ∷ ids) = do
    s ← sub_at m id
    rest ← live_order m ids
    ok (if is_active s.phase then id ∷ rest else rest)

  unfoldable pub compact_order : Machine T → Outcome Violation (Machine T)
  compact_order m = do live ← live_order m m.sub_order; ok (record m { sub_order = live })

  -- `fanout`
  unfoldable pub fanout :
      Machine T → Envelope → T → Effects T → Outcome Violation (Machine T × Effects T)
  fanout m env msg fx = do
    x ←
        spread m.sub_order
          (record { machine = m; effects = fx; matched = false; any_lagged = false }) env msg
    c ← if x.any_lagged then compact_order x.machine else ok x.machine
    ok (
      if x.matched then c else record c { ctr = record c.ctr { unmatched = c.ctr.unmatched + 1 } },
      x.effects,
    )
