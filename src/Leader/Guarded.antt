-- ===== src/Leader/Guarded.antt =====
-- The duties that a process of backend/app/main.py runs, and the connection of
-- backend/app/leader.py that they need.
use transaction_monitoring_s.Prelude.{
  ℕ, ◌≡◌, inl, inr, refl, Bool, true, false, Option, none, is_some, Bool-cases, Option-cases, arith,
}
use transaction_monitoring_s.Leader.{
  AdvisoryLock, idle, Process, State, Acquired, acquired, raised, Query, answers, fails, Probe, ask,
  try_acquire, start_leader_duties, stop_leader_duties, fresh, answered,
}

-- What a process runs is bound to the lock's connection.
pub record IsGuarded (enabled : Bool) (p : Process) : Type 0 where
  pub analysed : p.running.analysis ≡ true → enabled ≡ true
  pub quiet : p.leader_duties_started ≡ false → p.running ≡ idle
  pub led : p.conn ≡ none → p.leader_duties_started ≡ false

module _ (enabled : Bool) where
  pub fresh-IsGuarded : IsGuarded enabled fresh
  fresh-IsGuarded = record { analysed = λ h. cc; quiet = λ h. refl; led = λ h. refl }

  pub start-IsGuarded :
      (failing : Option ℕ) (p : Process)
      → IsGuarded enabled p
      → is_some p.conn ≡ true
      → IsGuarded enabled (start_leader_duties enabled failing p).0
  unfolding start_leader_duties
  start-IsGuarded failing p g h = record {
    analysed = λ a. ground (arith, g.analysed);
    quiet = λ q. cc;
    led = λ n. ground arith;
  }

  pub stop-IsGuarded :
      (p : Process)
      → IsGuarded enabled p
      → (IsGuarded enabled (stop_leader_duties enabled p))
        × ((stop_leader_duties enabled p).leader_duties_started ≡ false)
        × ((stop_leader_duties enabled p).running ≡ idle)
  unfolding stop_leader_duties
  stop-IsGuarded p g = elim (Bool-cases p.leader_duties_started) [
    | inl e ↦ simp e (
      record {
        analysed = λ a. ground (arith, g.analysed);
        quiet = λ q. ground (arith, g.analysed);
        led = λ n. refl;
      },
      refl,
      ground (arith, g.analysed),
    )
    | inr e ↦ simp e (g, refl, g.quiet e)
  ]

  pub conn-IsGuarded :
      (p : Process) (c : Option ℕ)
      → IsGuarded enabled p
      → p.conn ≡ none
      → IsGuarded enabled (record p { conn = c })
  conn-IsGuarded p c g e = record { analysed = g.analysed; quiet = g.quiet; led = λ n. g.led e }

  pub standby-IsGuarded :
      (b : Bool) (p : Process)
      → IsGuarded enabled p
      → IsGuarded enabled (record p { standby_task = b })
  standby-IsGuarded b p g = record { analysed = g.analysed; quiet = g.quiet; led = g.led }

  pub start-conn :
      (failing : Option ℕ) (p : Process) → (start_leader_duties enabled failing p).0.conn ≡ p.conn
  unfolding start_leader_duties
  start-conn failing p = refl

  pub stop-conn : (p : Process) → (stop_leader_duties enabled p).conn ≡ p.conn
  unfolding stop_leader_duties
  stop-conn p = ground arith

  module _ {D : Type 0} (lock : AdvisoryLock D) where
    -- A probe ends with the connection exactly if it says so.
    abbrev pub After : Acquired D → Type 0
    After (acquired true st) = IsGuarded enabled st.process × (is_some st.process.conn ≡ true)
    After (acquired false st) = IsGuarded enabled st.process
    After (raised st) = IsGuarded enabled st.process

    module _ (st : State D) (g : IsGuarded enabled st.process) where
      answered-After : (r : D × Bool) → st.process.conn ≡ none → After (answered lock r st)
      answered-After (d, true) e = (conn-IsGuarded st.process _ g e, refl)
      answered-After (d, false) e = conn-IsGuarded st.process none g e

      ask-After : (q : Query) → st.process.conn ≡ none → After (ask lock q st)
      unfolding ask
      ask-After answers e = answered-After (lock.try_lock st.next_session st.db) e
      ask-After (fails reached) e = conn-IsGuarded st.process none g e

      pub try_acquire-After : (probe : Probe) → After (try_acquire lock probe st)
      unfolding try_acquire
      try_acquire-After probe = elim (Option-cases st.process.conn) [
        | inr (s, e) ↦ simp e (g, refl)
        | inl e ↦ elim (Bool-cases probe.connects) [
          | inl up ↦ simp (e, up) (ask-After probe.query e)
          | inr down ↦ simp (e, down) g
        ]
      ]
