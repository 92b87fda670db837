-- ===== src/Leader/Sessions.antt =====
-- What one process may do to the others' sessions: backend/app/leader.py.
use transaction_monitoring_s.Prelude.{
  ℕ, ◌≡◌, ◌≢◌, ◌⊎◌, inl, inr, refl, ◌<◌, ◌≤◌, Bool, true, false, Option, none, some, if◌then◌else◌,
  Bool-cases, Option-cases, arith, sym, ◌∙◌,
}
use transaction_monitoring_s.Leader.{
  AdvisoryLock, Process, State, Acquired, acquired, raised, Query, answers, fails, Probe, ask,
  try_acquire, release_conn, release, fresh, die, answered, opened,
}

module _ {D : Type 0} (lock : AdvisoryLock D) where
  open lock use {holder}

  -- The process's session is the one that holds the lock, and sessions are older than the next.
  pub record IsOwner (st : State D) : Type 0 where
    pub owns : (s : ℕ) → st.process.conn ≡ some s → (holder st.db ≡ some s)
    pub old : (s : ℕ) → holder st.db ≡ some s → s < st.next_session

  -- What a change of one process does to the others' sessions.
  pub record Moves (st st' : State D) : Type 0 where
    pub kept : IsOwner st'
    pub later : st.next_session ≤ st'.next_session
    pub spares :
        (t : ℕ)
        → holder st.db ≡ some t
        → st.process.conn ≢ some t
        → (holder st'.db ≡ some t) × (st'.process.conn ≢ some t)
    pub new :
        (s : ℕ) → st'.process.conn ≡ some s → (st.process.conn ≡ some s) ⊎ (st.next_session ≤ s)

  pub Moves-trans : {a b c : State D} → Moves a b → Moves b c → Moves a c
  Moves-trans {a} {b} {c} m n = record {
    kept = n.kept;
    later = omega (arith, m.later, n.later);
    spares = λ t h k. n.spares t (m.spares t h k).0 (m.spares t h k).1;
    new = λ s h. elim (n.new s h) [ inl e ↦ m.new s e | inr le ↦ inr (omega (arith, m.later, le)) ];
  }

  abbrev pub state_of : Acquired D → State D
  state_of (acquired b st) = st
  state_of (raised st) = st

  Moves-refl : (st : State D) → IsOwner st → Moves st st
  Moves-refl st o = record {
    kept = o;
    later = omega arith;
    spares = λ t h k. (h, k);
    new = λ s h. inl h;
  }

  module _ (st : State D) (own : IsOwner st) (unled : st.process.conn ≡ none) where
    -- What the query may find: the lock is free and now the probe's, or it is another session's.
    abbrev Tried : D → Bool → Type 0
    Tried d b =
        ((holder st.db ≡ none) × (b ≡ true) × (holder d ≡ some st.next_session))
        ⊎ ((t : ℕ) × (holder st.db ≡ some t) × (b ≡ false) × (holder d ≡ some t))

    try_lock-Tried :
        Tried (lock.try_lock st.next_session st.db).0 (lock.try_lock st.next_session st.db).1
    try_lock-Tried = elim (Option-cases (holder st.db)) [
      | inl e ↦ let (b, h) = lock.try_lock-free st.next_session st.db e in inl (e, b, h)
      | inr (t, e) ↦
          let (b, h) =
            lock.try_lock-held st.next_session t st.db e
              (λ eq. absurd (omega (arith, own.old t e, eq))) in
          inr (t, e, b, h)
    ]

    -- Closing the probe leaves the lock as it was.
    closed-Moves :
        (d : D)
        → ((holder st.db ≡ none) × (holder d ≡ some st.next_session)) ⊎ (holder d ≡ holder st.db)
        → Moves st (opened lock (lock.close st.next_session d) none st)
    closed-Moves d (inl (e, h)) =
        let c = lock.close-own st.next_session d h in
        record {
          kept = record { owns = λ s k. cc; old = λ s k. cc };
          later = omega arith;
          spares = λ t k n. cc;
          new = λ s k. cc;
        }
    closed-Moves d (inr h) =
        let c =
          lock.close-other st.next_session d
            (λ k. absurd (omega (arith, own.old st.next_session (sym h ∙ k))))
          ∙ h in
        record {
          kept = record { owns = λ s k. cc; old = λ s k. omega (arith, own.old s (sym c ∙ k)) };
          later = omega arith;
          spares = λ t k n. (c ∙ k, λ k. cc);
          new = λ s k. cc;
        }

    answered-Moves : (d : D) (b : Bool) → Tried d b → Moves st (state_of (answered lock (d, b) st))
    answered-Moves d true (inl (e, b, h)) = record {
      kept = record { owns = λ s k. h ∙ k; old = λ s k. ground (arith, h, k) };
      later = omega arith;
      spares = λ t k n. cc;
      new = λ s k. inr (ground (arith, k));
    }
    answered-Moves d false (inr (t, e, b, h)) = closed-Moves d (inr (h ∙ sym e))
    answered-Moves d false (inl (e, b, h)) = closed-Moves d (inl (e, h))
    answered-Moves d true (inr (t, e, b, h)) = cc

    ask-Moves : (q : Query) → Moves st (state_of (ask lock q st))
    unfolding ask
    ask-Moves answers = answered-Moves _ _ try_lock-Tried
    ask-Moves (fails true) = elim try_lock-Tried [
      | inl (e, b, h) ↦ closed-Moves _ (inl (e, h))
      | inr (t, e, b, h) ↦ closed-Moves _ (inr (h ∙ sym e))
    ]
    ask-Moves (fails false) = closed-Moves st.db (inr refl)

  pub try_acquire-Moves :
      (probe : Probe) (st : State D) → IsOwner st → Moves st (state_of (try_acquire lock probe st))
  unfolding try_acquire
  try_acquire-Moves probe st own = elim (Option-cases st.process.conn) [
    | inr (s, e) ↦ simp e (Moves-refl st own)
    | inl e ↦ elim (Bool-cases probe.connects) [
      | inl up ↦ simp (e, up) (ask-Moves st own e probe.query)
      | inr down ↦ simp (e, down) (Moves-refl st own)
    ]
  ]

  -- A session that holds the lock frees it when it closes, whether or not it has unlocked.
  closed_free :
      (unlocks : Bool) (s : ℕ) (d : D)
      → holder d ≡ some s
      → holder (lock.close s (if unlocks then lock.unlock s d else d)) ≡ none
  closed_free false s d h = lock.close-own s d h
  closed_free true s d h = elim (lock.unlock_either s d) [
    | inl e ↦ lock.close-own s _ (e ∙ h)
    | inr (g, e) ↦ lock.close-other s _ (λ k. cc) ∙ e
  ]

  release_conn-Moves :
      (unlocks : Bool) (conn : Option ℕ) (st : State D)
      → st.process.conn ≡ conn
      → IsOwner st
      → Moves st (release_conn lock unlocks conn st)
        × ((release_conn lock unlocks conn st).process.conn ≡ none)
  unfolding release_conn
  release_conn-Moves unlocks none st e own = (Moves-refl st own, e)
  release_conn-Moves unlocks (some s) st e own =
      let free = closed_free unlocks s st.db (own.owns s e) in
      let mine = own.owns s e in
      (
        record {
          kept = record { owns = λ t k. cc; old = λ t k. cc };
          later = omega arith;
          spares = λ t h n. absurd (n (cc));
          new = λ t k. cc;
        },
        refl,
      )

  -- A change of the process's other globals.
  pub with_process-Moves :
      (st : State D) (p : Process)
      → p.conn ≡ st.process.conn
      → IsOwner st
      → Moves st (record st { process = p })
  with_process-Moves st p e own = record {
    kept = record { owns = λ s k. own.owns s (sym e ∙ k); old = own.old };
    later = omega arith;
    spares = λ t h n. (h, λ k. n (sym e ∙ k));
    new = λ s k. inl (sym e ∙ k);
  }

  pub release-Moves :
      (unlocks : Bool) (st : State D)
      → IsOwner st
      → Moves st (release lock unlocks st) × ((release lock unlocks st).process.conn ≡ none)
  unfolding release
  release-Moves unlocks st own = release_conn-Moves unlocks st.process.conn st refl own

  pub die-Moves : (st : State D) → IsOwner st → Moves st (die lock st)
  unfolding die
  die-Moves st own =
      let (m, e) = release-Moves false st own in
      Moves-trans m (with_process-Moves (release lock false st) fresh (sym e) m.kept)
