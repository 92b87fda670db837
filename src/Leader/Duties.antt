-- ===== src/Leader/Duties.antt =====
-- Each event of a process of backend/app/main.py keeps its duties bound to the connection of
-- backend/app/leader.py.
use transaction_monitoring_s.Prelude.{
  ℕ, ◌≡◌, refl, Bool, true, false, Option, none, some, is_some, ◌∙◌,
}
use transaction_monitoring_s.Leader.{
  AdvisoryLock, Process, State, Acquired, acquired, raised, try_acquire, release_conn, release,
  start_leader_duties, stop_leader_duties, Outside, die, boot, standby_promote, interrupted,
  shut_down, boot_guarded, promote, cut_short, Event, boots, promotes, stops, crashes,
  stops_promoting, event, promoted, booted,
}
use transaction_monitoring_s.Leader.Sessions.{
  IsOwner, Moves, Moves-trans, state_of, try_acquire-Moves, release-Moves, with_process-Moves,
  die-Moves,
}
use transaction_monitoring_s.Leader.Guarded.{
  IsGuarded, After, start-IsGuarded, stop-IsGuarded, standby-IsGuarded, start-conn, stop-conn,
  fresh-IsGuarded, try_acquire-After,
}

module _ (enabled : Bool) where
  module _ {D : Type 0} (lock : AdvisoryLock D) where
    abbrev pub Keeps : State D → State D → Type 0
    Keeps st st' = Moves lock st st' × IsGuarded enabled st'.process

    release_conn-IsGuarded :
        (unlocks : Bool) (conn : Option ℕ) (st : State D)
        → IsGuarded enabled st.process
        → st.process.leader_duties_started ≡ false
        → IsGuarded enabled (release_conn lock unlocks conn st).process
    unfolding release_conn
    release_conn-IsGuarded unlocks none st g e = g
    release_conn-IsGuarded unlocks (some s) st g e = record {
      analysed = g.analysed;
      quiet = g.quiet;
      led = λ n. e;
    }

    release-Keeps :
        (unlocks : Bool) (st : State D)
        → IsOwner lock st
        → IsGuarded enabled st.process
        → st.process.leader_duties_started ≡ false
        → Keeps st (release lock unlocks st)
    unfolding release
    release-Keeps unlocks st own g e = (
      (release-Moves lock unlocks st own).0,
      release_conn-IsGuarded unlocks st.process.conn st g e,
    )

    die-Keeps : (st : State D) → IsOwner lock st → Keeps st (die lock st)
    unfolding die
    die-Keeps st own = (die-Moves lock st own, fresh-IsGuarded enabled)

    -- The lock is given back by a process that runs no duties any more.
    unwind-Keeps :
        (unlocks : Bool) (q : Process) (st : State D)
        → IsOwner lock st
        → q.conn ≡ st.process.conn
        → IsGuarded enabled q
        → q.leader_duties_started ≡ false
        → Keeps st (release lock unlocks (record st { process = q }))
    unwind-Keeps unlocks q st own e g quiet =
        let m = with_process-Moves lock st q e own in
        let (n, h) = release-Keeps unlocks (record st { process = q }) m.kept g quiet in
        (Moves-trans lock m n, h)

    module _ (st : State D) {st' : State D} (m : Moves lock st st')
        (g : IsGuarded enabled st'.process) (led : is_some st'.process.conn ≡ true)
        (failing : Option ℕ) where
      abbrev started : Process
      started = (start_leader_duties enabled failing st'.process).0

      started-Keeps :
          (p : Process)
          → p.conn ≡ started.conn
          → IsGuarded enabled p
          → Keeps st (record st' { process = p })
      started-Keeps p e h = (
        Moves-trans lock m
            (with_process-Moves lock st' p (e ∙ start-conn enabled failing st'.process) m.kept),
        h,
      )

      started-IsGuarded : IsGuarded enabled started
      started-IsGuarded = start-IsGuarded enabled failing st'.process g led

      stopped-Keeps :
          (unlocks : Bool)
          → Keeps st
              (release lock unlocks (record st' { process = stop_leader_duties enabled started }))
      stopped-Keeps unlocks =
          let (h, off, quiet) = stop-IsGuarded enabled started started-IsGuarded in
          let (n, k) =
            unwind-Keeps unlocks (stop_leader_duties enabled started) st' m.kept
              (stop-conn enabled started ∙ start-conn enabled failing st'.process) h off in
          (Moves-trans lock m n, k)

      promoted-Keeps :
          (out : Outside) (b : Bool) → Keeps st (promoted lock enabled out st' (started, b))
      promoted-Keeps out true =
          started-Keeps _ refl (standby-IsGuarded enabled false started started-IsGuarded)
      promoted-Keeps out false = stopped-Keeps out.unlocks

      booted-Keeps :
          (out : Outside) (b : Bool) → Keeps st (booted lock true enabled out st' (started, b))
      booted-Keeps out true = started-Keeps started refl started-IsGuarded
      booted-Keeps out false =
          let (n, h) = started-Keeps started refl started-IsGuarded in
          let (k, quiet) = die-Keeps (record st' { process = started }) n.kept in
          (Moves-trans lock n k, quiet)

    module _ (out : Outside) (st : State D) where
      promote-Keeps :
          (a : Acquired D)
          → Moves lock st (state_of lock a)
          → After enabled lock a
          → Keeps st (promote lock enabled out a)
      promote-Keeps (raised st') m g = (m, g)
      promote-Keeps (acquired false st') m g = (m, g)
      promote-Keeps (acquired true st') m (g, led) =
          promoted-Keeps st m g led out.failing out
            (start_leader_duties enabled out.failing st'.process).1

      boot_guarded-Keeps :
          (a : Acquired D)
          → Moves lock st (state_of lock a)
          → After enabled lock a
          → Keeps st (boot_guarded lock true enabled out a)
      boot_guarded-Keeps (raised st') m g =
          let (n, h) = die-Keeps st' m.kept in (Moves-trans lock m n, h)
      boot_guarded-Keeps (acquired false st') m g = (
        Moves-trans lock m (with_process-Moves lock st' _ refl m.kept),
        standby-IsGuarded enabled true st'.process g,
      )
      boot_guarded-Keeps (acquired true st') m (g, led) =
          booted-Keeps st m g led out.failing out
            (start_leader_duties enabled out.failing st'.process).1

      cut_short-Keeps :
          (a : Acquired D)
          → Moves lock st (state_of lock a)
          → After enabled lock a
          → Keeps st (cut_short lock enabled out a)
      cut_short-Keeps (raised st') m g = (m, g)
      cut_short-Keeps (acquired false st') m g = (m, g)
      cut_short-Keeps (acquired true st') m (g, led) =
          started-Keeps st m g led out.failing _ refl (started-IsGuarded st m g led out.failing)

      module _ (own : IsOwner lock st) (g : IsGuarded enabled st.process) where
        tried : Moves lock st (state_of lock (try_acquire lock out.probe st))
        tried = try_acquire-Moves lock out.probe st own

        shut_down-Keeps : Keeps st (shut_down lock enabled out st)
        unfolding shut_down
        shut_down-Keeps =
            let (h, off, quiet) = stop-IsGuarded enabled st.process g in
            unwind-Keeps out.unlocks _ st own (stop-conn enabled st.process)
              (standby-IsGuarded enabled false _ h) off

        interrupted-Keeps : Keeps st (interrupted lock enabled out st)
        unfolding interrupted
        interrupted-Keeps = cut_short-Keeps _ tried (try_acquire-After enabled lock st g out.probe)

    pub event-Keeps :
        (e : Event) (st : State D)
        → IsOwner lock st
        → IsGuarded enabled st.process
        → Keeps st (event lock enabled e st)
    unfolding event boot standby_promote
    event-Keeps (boots out) st own g =
        boot_guarded-Keeps out st _ (tried out st own g)
          (try_acquire-After enabled lock st g out.probe)
    event-Keeps (promotes out) st own g =
        promote-Keeps out st _ (tried out st own g) (try_acquire-After enabled lock st g out.probe)
    event-Keeps (stops out) st own g = shut_down-Keeps out st own g
    event-Keeps (crashes out) st own g = die-Keeps st own
    event-Keeps (stops_promoting out end) st own g =
        let (m, h) = interrupted-Keeps out st own g in
        let (n, k) = shut_down-Keeps end (interrupted lock enabled out st) m.kept h in
        (Moves-trans lock m n, k)
