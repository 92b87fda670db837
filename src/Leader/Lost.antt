-- ===== src/Leader/Lost.antt =====
-- The guard of backend/app/leader.py when the server loses the leader's session, as a restart of
-- PostgreSQL or a cut connection does.
use transaction_monitoring_s.Prelude.{ℕ, ◌≡◌, ◌≢◌, refl, Bool, true, false, none, some, ◌==◌, arith}
use transaction_monitoring_s.Leader.{
  AdvisoryLock, State, World, promotes, event, view, put, is_leader, Outside, answers, answered,
  try_acquire, ask, standby_promote, start_leader_duties, promote,
}

module _ {D : Type 0} (lock : AdvisoryLock D) (enabled : Bool) where
  open lock use {holder}

  -- The server ends a session; the process that has opened it does not see that.
  abbrev pub lose : ℕ → World D → World D
  lose s w = record w { db = lock.close s w.db }

  answered-leads :
      (out : Outside) (r : D × Bool) (st : State D)
      → r.1 ≡ true
      → out.failing ≡ none
      → (is_leader (promote lock enabled out (answered lock r st)).process ≡ true)
        × ((promote lock enabled out (answered lock r st)).process.running.housekeeping ≡ true)
  unfolding start_leader_duties is_leader
  answered-leads out (d, true) st h f = rw f (refl, refl)
  answered-leads out (d, false) st h f = cc

  promoted-leads :
      (out : Outside) (st : State D)
      → holder st.db ≡ none
      → st.process.conn ≡ none
      → out.probe.connects ≡ true
      → out.probe.query ≡ answers
      → out.failing ≡ none
      → (is_leader (standby_promote lock enabled out st).process ≡ true)
        × ((standby_promote lock enabled out st).process.running.housekeeping ≡ true)
  unfolding standby_promote try_acquire ask
  promoted-leads out st h c up q f =
      simp (c, up, q)
        (answered-leads out (lock.try_lock st.next_session st.db) st
          (lock.try_lock-free st.next_session st.db h).0 f)

  -- When the server has lost the session of an instance that leads, the next round of a standby
  -- whose probe and start succeed makes it lead too, while the first still says that it leads and
  -- goes on with what it runs.
  pub lost-leaders :
      (w : World D) (i j s : ℕ) (out : Outside)
      → i ≢ j
      → (w.process i).conn ≡ some s
      → holder w.db ≡ some s
      → (w.process j).conn ≡ none
      → out.probe.connects ≡ true
      → out.probe.query ≡ answers
      → out.failing ≡ none
      → let w' = put (lose s w) j (event lock enabled (promotes out) (view (lose s w) j)) in
        (is_leader (w'.process i) ≡ true)
        × ((w'.process i).running ≡ (w.process i).running)
        × (is_leader (w'.process j) ≡ true)
        × ((w'.process j).running.housekeeping ≡ true)
  unfolding event is_leader
  lost-leaders w i j s out ne c h c' up q f =
      let other : (j == i) ≡ false = ground arith in
      let self : (j == j) ≡ true = ground arith in
      let (leads, busy) =
        promoted-leads out (view (lose s w) j) (lock.close-own s w.db h) c' up q f in
      rw (other, self) (rw c refl, refl, leads, busy)
