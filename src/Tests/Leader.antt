-- ===== src/Tests/Leader.antt =====
-- Two instances, of which the first leads; the lock is the number of the session that holds it.
use transaction_monitoring_s.Prelude.{
  ℕ, ◌≡◌, ◌≢◌, ◌⊎◌, inl, inr, refl, Bool, true, false, Option, none, some, List, [], ◌∷◌, ◌==◌,
  if◌then◌else◌, arith, Bool-cases,
}
use transaction_monitoring_s.Leader.{
  AdvisoryLock, answers, Outside, World, Event, boots, promotes, stops, event, events, view, put,
  fleet, is_leader, boot, try_acquire, ask, start_leader_duties, standby_promote, shut_down,
  stop_leader_duties, release, release_conn, die, idle,
}
use transaction_monitoring_s.Leader.Exclusive.{events-exclusive}
use transaction_monitoring_s.Leader.Lost.{lost-leaders, lose}

abbrev free : ℕ → Option ℕ → Option ℕ
free s none = none
free s (some t) = if s == t then none else some t

abbrev take : ℕ → Option ℕ → Option ℕ × Bool
take s none = (some s, true)
take s (some t) = (some t, s == t)

take-held :
    (s t : ℕ) (d : Option ℕ) → d ≡ some t → t ≢ s → ((take s d).1 ≡ false) × ((take s d).0 ≡ some t)
take-held s t none h n = cc
take-held s t (some u) h n = ground arith

take-free : (s : ℕ) (d : Option ℕ) → d ≡ none → ((take s d).1 ≡ true) × ((take s d).0 ≡ some s)
take-free s none h = (refl, refl)
take-free s (some u) h = cc

free_either : (s : ℕ) (d : Option ℕ) → (free s d ≡ d) ⊎ ((d ≡ some s) × (free s d ≡ none))
free_either s none = inl refl
free_either s (some t) = elim (Bool-cases (s == t)) [
  | inl e ↦ inr (ground arith, ground arith)
  | inr e ↦ inl (ground arith)
]

free-own : (s : ℕ) (d : Option ℕ) → d ≡ some s → free s d ≡ none
free-own s none h = refl
free-own s (some t) h = ground arith

free-other : (s : ℕ) (d : Option ℕ) → d ≢ some s → free s d ≡ d
free-other s none h = refl
free-other s (some t) h = elim (Bool-cases (s == t)) [
  | inl e ↦ absurd (h (ground arith))
  | inr e ↦ rw e refl
]

-- A server that keeps its sessions.
abbrev lock : AdvisoryLock (Option ℕ)
lock = record {
  holder = λ d. d;
  try_lock = take;
  unlock = free;
  close = free;
  try_lock-free = take-free;
  try_lock-held = take-held;
  unlock_either = free_either;
  close-own = free-own;
  close-other = free-other;
}

abbrev healthy : Outside
healthy = record {
  probe = record { connects = true; query = answers };
  failing = none;
  unlocks = true;
}

-- The standby takes over once the leader has stopped.
abbrev history : List (ℕ × Event)
history = (0, boots healthy) ∷ (1, boots healthy) ∷ (0, stops healthy) ∷ (1, promotes healthy) ∷ []

abbrev after : World (Option ℕ)
after = events lock true history (fleet none 7)

leads : (after.process 1).conn ≡ some 9
unfolding events event boot standby_promote shut_down stop_leader_duties try_acquire ask release
    release_conn start_leader_duties die
leads = refl

busy : (after.process 1).running ≢ idle
unfolding events event boot standby_promote shut_down stop_leader_duties try_acquire ask release
    release_conn start_leader_duties die
busy h = cc

events-exclusive_example :
    (◌≡◌ {A = ℕ} 1 1) × ((s : ℕ) × ((after.process 1).conn ≡ some s) × (after.db ≡ some s))
events-exclusive_example = events-exclusive lock true none 7 history 1 1 (λ s h. cc) busy busy

abbrev two : World (Option ℕ)
two = events lock true ((0, boots healthy) ∷ (1, boots healthy) ∷ []) (fleet none 7)

abbrev lost : World (Option ℕ)
lost =
    put (lose lock true 7 two) 1
      (event lock true (promotes healthy) (view (lose lock true 7 two) 1))

lost-leaders_example :
    (is_leader (lost.process 0) ≡ true)
    × ((lost.process 0).running ≡ (two.process 0).running)
    × (is_leader (lost.process 1) ≡ true)
    × ((lost.process 1).running.housekeeping ≡ true)
unfolding events event boot try_acquire ask start_leader_duties
lost-leaders_example =
    lost-leaders lock true two 0 1 7 healthy (omega arith) refl refl refl refl refl refl
