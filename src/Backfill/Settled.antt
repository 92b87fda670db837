-- ===== src/Backfill/Settled.antt =====
-- What a run of backend/app/ingestion/address_backfill.py has inserted, from step to step.
use transaction_monitoring_s.Prelude.{
  ℕ, zero, suc, String, Option, none, some, List, [], ◌∷◌, ◌++◌, ltb, arith, Bool-cases, inl, inr,
  ◌∙◌,
}
use mathlib.Core.List.{append-nil}
use transaction_monitoring_s.Backfill.{
  BlockTx, Message, forward, backward, other, rpc_error, Session, Env, Walk, Step, ok, failed,
  insert_attempts, insert_with_retry, take_targets, write_raw_payloads, and_insert, store_targets,
  ingest_block_targets, Walked, finished, closed, broken, go_on, at_slot, on_message, walk,
  Intersection, found, refused, cut, intersected, connect, or_reconnect, sessions, is_complete,
}
use transaction_monitoring_s.Backfill.Missing.{Unique}
use transaction_monitoring_s.Backfill.Taken.{Inv, other-Inv, take_targets-Inv}

module _ (needed old : List String) (targets : Unique needed) where
  module _ (env : Env) where
    -- After a step that goes on, all that is seen is inserted.
    abbrev pub Settled : Step → Type 0
    Settled (ok w) = Inv needed old targets [] w
    Settled (failed w) = Unit

    insert_with_retry-Settled :
        (slot : ℕ) (new : List String) (w : Walk)
        → Inv needed old targets new w
        → Settled (insert_with_retry env slot new w)
    unfolding insert_with_retry
    insert_with_retry-Settled slot new w v =
        elim (Bool-cases (insert_attempts env.max_retries 1 (env.insert_answers slot))) [
          | inr e ↦ rw e tt
          | inl e ↦ rw e (record {
            once = v.once;
            wanted = v.wanted;
            rows = append-nil (w.transactions ++ new) ∙ v.rows;
            counted = omega (arith, v.counted);
            balanced = v.balanced;
          })
        ]

    and_insert-Settled :
        (slot : ℕ) (new : List String) (w : Walk)
        → Inv needed old targets new w
        → Settled (and_insert env slot new (write_raw_payloads env slot new w))
    unfolding insert_with_retry
    and_insert-Settled slot new w v = elim (Bool-cases env.raw_store_enabled) [
      | inr e ↦ rw e (insert_with_retry-Settled slot new w v)
      | inl e ↦ elim (Bool-cases (env.raw_up slot)) [
        | inl f ↦
            rw (e, f)
              (insert_with_retry-Settled slot new (record w { raw_files = new ++ w.raw_files })
                (other-Inv needed old targets new w w.blocks_scanned (new ++ w.raw_files)
                  w.parse_failed_files v))
        | inr f ↦ elim (Bool-cases (ltb 0 env.raw_data_max_bytes)) [
          | inl g ↦ rw (e, f, g) tt
          | inr g ↦ rw (e, f, g) (insert_with_retry-Settled slot new w v)
        ]
      ]
    ]

    store_targets-Settled :
        (slot : ℕ) (new : List String) (w : Walk)
        → Inv needed old targets new w
        → Settled (store_targets env slot (new, w))
    unfolding store_targets
    store_targets-Settled slot [] w v = v
    store_targets-Settled slot (id ∷ new) w v = elim (Bool-cases (env.resolves slot)) [
      | inl e ↦ rw e (and_insert-Settled slot (id ∷ new) w v)
      | inr e ↦ rw e tt
    ]

    ingest_block_targets-Settled :
        (txs : List BlockTx) (slot : ℕ) (w : Walk)
        → Inv needed old targets [] w
        → Settled (ingest_block_targets env needed txs slot w)
    unfolding ingest_block_targets
    ingest_block_targets-Settled txs slot w v =
        store_targets-Settled slot (take_targets env needed txs ([], w)).0
          (take_targets env needed txs ([], w)).1
          (take_targets-Inv needed old targets env txs [] w v)

    -- At the end of a connection too, unless an error ends it.
    abbrev Ended : Walked → Type 0
    Ended (finished w) = Inv needed old targets [] w
    Ended (closed w) = Inv needed old targets [] w
    Ended (broken w) = Unit

    go_on-Ended :
        (s : Step) (rest : Walk → Walked)
        → Settled s
        → ((w : Walk) → Inv needed old targets [] w → Ended (rest w))
        → Ended (go_on s rest)
    go_on-Ended (ok w) rest v h = h w v
    go_on-Ended (failed w) rest v h = tt

    on_message-Ended :
        (latest : ℕ) (m : Message) (w : Walk) (rest : Walk → Walked)
        → Inv needed old targets [] w
        → ((u : Walk) → Inv needed old targets [] u → Ended (rest u))
        → Ended (on_message env needed latest m w rest)
    on_message-Ended latest backward w rest v h = h w v
    on_message-Ended latest other w rest v h = h w v
    on_message-Ended latest rpc_error w rest v h = tt
    on_message-Ended latest (forward block) w rest v h = at block.slot
      where
        at : (o : Option ℕ) → Ended (at_slot env needed latest block.transactions o w rest)
        at none = h w v
        at (some slot) = elim (Bool-cases (ltb latest slot)) [
          | inl e ↦ rw e v
          | inr e ↦ rw e (
              go_on-Ended _ rest
                (ingest_block_targets-Settled block.transactions slot _ (
                  other-Inv needed old targets [] w (suc w.blocks_scanned) w.raw_files
                    w.parse_failed_files v))
                h)
        ]

    walk-Ended :
        (latest : ℕ) (messages : List Message) (w : Walk)
        → Inv needed old targets [] w
        → Ended (walk env needed latest messages w)
    unfolding walk
    walk-Ended latest [] w v = ground (arith, v)
    walk-Ended latest (m ∷ messages) w v = elim (Bool-cases (is_complete needed w.seen)) [
      | inl e ↦ rw e v
      | inr e ↦ rw e (
          on_message-Ended latest m w (walk env needed latest messages) v
            (walk-Ended latest messages))
    ]

    connect-Ended :
        (latest : ℕ) (session : Session) (w : Walk)
        → Inv needed old targets [] w
        → Ended (connect env needed latest session w)
    unfolding connect
    connect-Ended latest session w v = elim (Bool-cases session.opens) [
      | inr e ↦ rw e tt
      | inl e ↦ rw e (at session.intersection)
    ]
      where
        at : (o : Intersection) → Ended (intersected env needed latest session o w)
        at found = walk-Ended latest session.messages w v
        at refused = tt
        at cut = v

    or_reconnect-Settled :
        (walked : Walked) (again : Walk → Step)
        → Ended walked
        → ((w : Walk) → Inv needed old targets [] w → Settled (again w))
        → Settled (or_reconnect walked again)
    or_reconnect-Settled (finished w) again v h = v
    or_reconnect-Settled (closed w) again v h = h w v
    or_reconnect-Settled (broken w) again v h = tt

    pub sessions-Settled :
        (latest left k : ℕ) (session : ℕ → Session) (w : Walk)
        → Inv needed old targets [] w
        → Settled (sessions env needed latest left k session w)
    unfolding sessions
    sessions-Settled latest zero k session w v =
        or_reconnect-Settled _ failed (connect-Ended latest (session k) w v) (λ u h. tt)
    sessions-Settled latest (suc left) k session w v =
        or_reconnect-Settled _ (sessions env needed latest left (suc k) session)
          (connect-Ended latest (session k) w v) (sessions-Settled latest left (suc k) session)
