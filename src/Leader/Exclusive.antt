-- ===== src/Leader/Exclusive.antt =====
-- At most one instance runs the leader's duties: backend/app/leader.py and main.py, over any events
-- of any instances. The server keeps the sessions of live processes.
use transaction_monitoring_s.Prelude.{
  ℕ, ◌≡◌, ◌≢◌, refl, Bool, true, false, some, List, [], ◌∷◌, ◌==◌, if◌then◌else◌, ◌<◌, Option-cases,
  inl, inr, arith, sym, ◌∙◌,
}
use transaction_monitoring_s.Leader.{
  AdvisoryLock, idle, Process, State, Event, World, event, events, view, put, fleet,
}
use transaction_monitoring_s.Leader.Sessions.{IsOwner, Moves}
use transaction_monitoring_s.Leader.Guarded.{IsGuarded, fresh-IsGuarded}
use transaction_monitoring_s.Leader.Duties.{event-Keeps}

module _ {D : Type 0} (lock : AdvisoryLock D) (enabled : Bool) where
  open lock use {holder}

  -- Each connection holds the lock, no two processes share one, and duties need one.
  record Inv (w : World D) : Type 0 where
    owner : (i : ℕ) → IsOwner lock (view w i)
    guarded : (i : ℕ) → IsGuarded enabled (w.process i)
    apart : (i j s : ℕ) → (w.process i).conn ≡ some s → (w.process j).conn ≡ some s → i ≡ j

  module _ (w : World D) (inv : Inv w) (i : ℕ) (st : State D) (m : Moves lock (view w i) st)
      (g : IsGuarded enabled st.process) where
    -- Another process's connection is spared.
    spared :
        (j t : ℕ)
        → (i == j) ≡ false
        → (w.process j).conn ≡ some t
        → (holder st.db ≡ some t) × (st.process.conn ≢ some t)
    spared j t e h =
        m.spares t ((inv.owner j).owns t h)
          (λ k. let same : i ≡ j = inv.apart i j t k h in ground (arith, same, e))

    -- The processes after the change, by the test that picks one.
    abbrev picked : ℕ → Bool → Process
    picked j b = if b then st.process else w.process j

    picked-owner :
        (j : ℕ) (b : Bool)
        → (i == j) ≡ b
        → (s : ℕ) → (picked j b).conn ≡ some s
        → holder st.db ≡ some s
    picked-owner j true e s h = m.kept.owns s h
    picked-owner j false e s h = (spared j s e h).0

    picked-IsGuarded : (j : ℕ) (b : Bool) → IsGuarded enabled (picked j b)
    picked-IsGuarded j true = g
    picked-IsGuarded j false = inv.guarded j

    picked-apart :
        (j k s : ℕ) (b c : Bool)
        → (i == j) ≡ b
        → (i == k) ≡ c
        → (picked j b).conn ≡ some s
        → (picked k c).conn ≡ some s
        → j ≡ k
    picked-apart j k s true true e f h h' = ground arith
    picked-apart j k s true false e f h h' = absurd ((spared k s f h').1 h)
    picked-apart j k s false true e f h h' = absurd ((spared j s e h).1 h')
    picked-apart j k s false false e f h h' = inv.apart j k s h h'

    put-Inv : Inv (put w i st)
    put-Inv = record {
      owner = λ j. record { owns = picked-owner j (i == j) refl; old = m.kept.old };
      guarded = λ j. picked-IsGuarded j (i == j);
      apart = λ j k s h h'. picked-apart j k s (i == j) (i == k) refl refl h h';
    }

  events-Inv : (es : List (ℕ × Event)) (w : World D) → Inv w → Inv (events lock enabled es w)
  unfolding events
  events-Inv [] w inv = inv
  events-Inv ((i, e) ∷ es) w inv =
      let (m, g) = event-Keeps enabled lock e (view w i) (inv.owner i) (inv.guarded i) in
      events-Inv es (put w i (event lock enabled e (view w i))) (put-Inv w inv i _ m g)

  start-Inv : (db : D) (next : ℕ) → ((s : ℕ) → holder db ≡ some s → s < next) → Inv (fleet db next)
  start-Inv db next old = record {
    owner = λ i. record { owns = λ s h. cc; old = old };
    guarded = λ i. fresh-IsGuarded enabled;
    apart = λ i j s h k. cc;
  }

  -- A process that runs something has the session that holds the lock.
  led-running :
      (w : World D) (i : ℕ)
      → Inv w
      → (w.process i).running ≢ idle
      → (s : ℕ) × ((w.process i).conn ≡ some s) × (holder w.db ≡ some s)
  led-running w i inv busy = elim (Option-cases (w.process i).conn) [
    | inl e ↦ absurd (busy ((inv.guarded i).quiet ((inv.guarded i).led e)))
    | inr (s, e) ↦ (s, e, (inv.owner i).owns s e)
  ]

  -- With the leader lock enabled, and as long as the server ends no session of a live process: from
  -- a fresh fleet, whatever starts, promotions, failed starts, unwindings, shutdowns and crashes
  -- follow, with whatever failures of connections, queries and unlocks: if two instances run some
  -- duty, they are one, and its session holds the lock.
  pub events-exclusive :
      (db : D) (next : ℕ) (es : List (ℕ × Event)) (i j : ℕ)
      → ((s : ℕ) → holder db ≡ some s → s < next)
      → ((events lock enabled es (fleet db next)).process i).running ≢ idle
      → ((events lock enabled es (fleet db next)).process j).running ≢ idle
      → (i ≡ j)
        × ((s : ℕ) × (((events lock enabled es (fleet db next)).process i).conn ≡ some s)
            × (holder (events lock enabled es (fleet db next)).db ≡ some s))
  events-exclusive db next es i j old busy busy' =
      let w = events lock enabled es (fleet db next) in
      let inv : Inv w = events-Inv es (fleet db next) (start-Inv db next old) in
      let (s, e, h) = led-running w i inv busy in
      let (t, e', h') = led-running w j inv busy' in
      (inv.apart i j s e (e' ∙ sym h' ∙ h), (s, e, h))
