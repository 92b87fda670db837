-- ===== src/Leader.antt =====
-- The guard of backend/app/leader.py and the leader's duties of backend/app/main.py, for several
-- instances on one PostgreSQL server. The server's advisory locks are a parameter.
pub mod Sessions
pub mod Guarded
pub mod Duties
pub mod Exclusive
pub mod Lost
use transaction_monitoring_s.Prelude.{
  ℕ, ◌≡◌, ◌≢◌, ◌⊎◌, suc, Bool, true, false, Option, none, some, is_some, ltb, List, [], ◌∷◌, ◌==◌,
  ◌&&◌, ◌||◌, not, if◌then◌else◌,
}

-- What PostgreSQL documents of one exclusive advisory lock that a session takes once: sessions are
-- numbers, and closing a session frees what it holds.
pub record AdvisoryLock (D : Type 0) : Type 0 where
  pub holder : D → Option ℕ
  pub try_lock : ℕ → D → D × Bool
  pub unlock : ℕ → D → D
  pub close : ℕ → D → D
  pub try_lock-free :
      (s : ℕ) (d : D)
      → holder d ≡ none
      → ((try_lock s d).1 ≡ true) × (holder (try_lock s d).0 ≡ some s)
  pub try_lock-held :
      (s t : ℕ) (d : D)
      → holder d ≡ some t
      → t ≢ s
      → ((try_lock s d).1 ≡ false) × (holder (try_lock s d).0 ≡ some t)
  pub unlock_either :
      (s : ℕ) (d : D)
      → (holder (unlock s d) ≡ holder d) ⊎ ((holder d ≡ some s) × (holder (unlock s d) ≡ none))
  pub close-own : (s : ℕ) (d : D) → holder d ≡ some s → holder (close s d) ≡ none
  pub close-other : (s : ℕ) (d : D) → holder d ≢ some s → holder (close s d) ≡ holder d

-- What runs of the leader's duties.
pub record Running : Type 0 where
  pub analysis : Bool
  pub housekeeping : Bool
  pub notifications : Bool
  pub ogmios_client : Bool
  pub ingestion_tasks : Bool

abbrev pub idle : Running
idle = record {
  analysis = false;
  housekeeping = false;
  notifications = false;
  ogmios_client = false;
  ingestion_tasks = false;
}

-- The globals of one process: `_conn` by its session, `_leader_duties_started`, the retry loop.
pub record Process : Type 0 where
  pub conn : Option ℕ
  pub leader_duties_started : Bool
  pub standby_task : Bool
  pub running : Running

-- A process with the server; `next_session` is the number of the session that is opened next.
pub record State (D : Type 0) : Type 0 where
  pub db : D
  pub next_session : ℕ
  pub process : Process

pub data Acquired (D : Type 0) : Type 0 where
  acquired : Bool → State D → Acquired D
  raised : State D → Acquired D

-- The query answers, or it raises, and then it has reached the server or not.
pub data Query : Type 0 where
  answers : Query
  fails : Bool → Query

pub record Probe : Type 0 where
  pub connects : Bool
  pub query : Query

module _ {D : Type 0} (lock : AdvisoryLock D) where
  open lock use {try_lock, unlock, close}

  -- The server after a new session, and what the process keeps of it.
  abbrev pub opened : D → Option ℕ → State D → State D
  opened db conn st = record st {
    db = db;
    next_session = suc st.next_session;
    process = record st.process { conn = conn };
  }

  abbrev pub answered : D × Bool → State D → Acquired D
  answered (db, true) st = acquired true (opened db (some st.next_session) st)
  answered (db, false) st = acquired false (opened (close st.next_session db) none st)

  unfoldable pub ask : Query → State D → Acquired D
  ask answers st = answered (try_lock st.next_session st.db) st
  ask (fails reached) st =
      let db = if reached then (try_lock st.next_session st.db).0 else st.db in
      raised (opened (close st.next_session db) none st)

  unfoldable pub try_acquire : Probe → State D → Acquired D
  try_acquire probe st =
      if is_some st.process.conn
      then acquired true st
      else if probe.connects
      then ask probe.query st
      else raised st

  -- The session's end frees the lock also where the query of the unlock fails.
  unfoldable pub release_conn : Bool → Option ℕ → State D → State D
  release_conn unlocks none st = st
  release_conn unlocks (some s) st = record st {
    db = close s (if unlocks then unlock s st.db else st.db);
    process = record st.process { conn = none };
  }

  unfoldable pub release : Bool → State D → State D
  release unlocks st = release_conn unlocks st.process.conn st

unfoldable pub is_leader : Process → Bool
is_leader p = is_some p.conn

-- `none` is a start to the end, `some k` one in which the k-th statement raises or is cancelled.
abbrev pub reaches : ℕ → Option ℕ → Bool
reaches n none = true
reaches n (some k) = ltb n k

-- The process, and whether the start ended well.
unfoldable pub start_leader_duties : Bool → Option ℕ → Process → Process × Bool
start_leader_duties analysis_engine_enabled failing p = (
  record p {
    leader_duties_started = true;
    running = record {
      analysis = analysis_engine_enabled && reaches 0 failing || p.running.analysis;
      housekeeping = reaches 1 failing || p.running.housekeeping;
      notifications = reaches 2 failing || p.running.notifications;
      ogmios_client = reaches 3 failing || p.running.ogmios_client;
      ingestion_tasks = reaches 4 failing || p.running.ingestion_tasks;
    };
  },
  not (is_some failing),
)

unfoldable pub stop_leader_duties : Bool → Process → Process
stop_leader_duties analysis_engine_enabled p =
    if p.leader_duties_started
    then record p {
      leader_duties_started = false;
      running = record {
        analysis = p.running.analysis && not analysis_engine_enabled;
        housekeeping = false;
        notifications = false;
        ogmios_client = false;
        ingestion_tasks = false;
      };
    }
    else p

-- How the outside answers: a probe, a start of the duties, the unlock of a release.
pub record Outside : Type 0 where
  pub probe : Probe
  pub failing : Option ℕ
  pub unlocks : Bool

abbrev pub fresh : Process
fresh = record { conn = none; leader_duties_started = false; standby_task = false; running = idle }

module _ {D : Type 0} (lock : AdvisoryLock D) where
  -- The process ends, and the system closes its connection.
  unfoldable pub die : State D → State D
  die st = record (release lock false st) { process = fresh }

abbrev pub with_process : {D : Type 0} → State D → Process → State D
with_process st p = record st { process = p }

module _ {D : Type 0} (lock : AdvisoryLock D) (leader_lock_enabled analysis_engine_enabled : Bool)
    (out : Outside) where
  -- An exception of the start ends the process.
  abbrev pub booted : State D → Process × Bool → State D
  booted st (p, true) = with_process st p
  booted st (p, false) = die lock (with_process st p)

  abbrev pub boot_duties : State D → State D
  boot_duties st = booted st (start_leader_duties analysis_engine_enabled out.failing st.process)

  abbrev pub boot_guarded : Acquired D → State D
  boot_guarded (raised st) = die lock st
  boot_guarded (acquired true st) = boot_duties st
  boot_guarded (acquired false st) = with_process st (record st.process { standby_task = true })

  -- The start of `lifespan`.
  unfoldable pub boot : State D → State D
  boot st =
      if leader_lock_enabled then boot_guarded (try_acquire lock out.probe st) else boot_duties st

module _ {D : Type 0} (lock : AdvisoryLock D) (analysis_engine_enabled : Bool) (out : Outside) where
  -- A failed start is unwound, and the lock given back.
  abbrev pub promoted : State D → Process × Bool → State D
  promoted st (p, true) = with_process st (record p { standby_task = false })
  promoted st (p, false) =
      release lock out.unlocks (with_process st (stop_leader_duties analysis_engine_enabled p))

  abbrev pub promote : Acquired D → State D
  promote (raised st) = st
  promote (acquired false st) = st
  promote (acquired true st) =
      promoted st (start_leader_duties analysis_engine_enabled out.failing st.process)

  -- A round of the loop of `_standby_promote`.
  unfoldable pub standby_promote : State D → State D
  standby_promote st = promote (try_acquire lock out.probe st)

  -- The same round, cancelled by the shutdown while it starts the duties.
  abbrev pub cut_short : Acquired D → State D
  cut_short (raised st) = st
  cut_short (acquired false st) = st
  cut_short (acquired true st) =
      with_process st (start_leader_duties analysis_engine_enabled out.failing st.process).0

  unfoldable pub interrupted : State D → State D
  interrupted st = cut_short (try_acquire lock out.probe st)

  -- The end of `lifespan`.
  unfoldable pub shut_down : State D → State D
  shut_down st = release lock out.unlocks (
      with_process st
        (record (stop_leader_duties analysis_engine_enabled st.process) { standby_task = false }))

-- What happens to one instance, each with what the outside does: it starts, its retry loop has a
-- round, it is shut down between two rounds or during one, or it crashes.
pub data Event : Type 0 where
  boots promotes stops crashes : Outside → Event
  stops_promoting : Outside → Outside → Event

-- Any number of instances on one server.
pub record World (D : Type 0) : Type 0 where
  pub db : D
  pub next_session : ℕ
  pub process : ℕ → Process

abbrev pub view : {D : Type 0} → World D → ℕ → State D
view w i = record { db = w.db; next_session = w.next_session; process = w.process i }

-- The instance `i` has changed.
abbrev pub put : {D : Type 0} → World D → ℕ → State D → World D
put w i st = record {
  db = st.db;
  next_session = st.next_session;
  process = λ j. if i == j then st.process else w.process j;
}

-- Instances that have not started.
abbrev pub fleet : {D : Type 0} → D → ℕ → World D
fleet db next = record { db = db; next_session = next; process = λ i. fresh }

module _ {D : Type 0} (lock : AdvisoryLock D) (analysis_engine_enabled : Bool) where
  unfoldable pub event : Event → State D → State D
  event (boots out) st = boot lock true analysis_engine_enabled out st
  event (promotes out) st = standby_promote lock analysis_engine_enabled out st
  event (stops out) st = shut_down lock analysis_engine_enabled out st
  event (crashes out) st = die lock st
  event (stops_promoting out end) st =
      shut_down lock analysis_engine_enabled end (interrupted lock analysis_engine_enabled out st)

  unfoldable pub events : List (ℕ × Event) → World D → World D
  events [] w = w
  events ((i, e) ∷ es) w = events es (put w i (event e (view w i)))
