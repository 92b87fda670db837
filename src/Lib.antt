-- ===== src/Lib.antt =====
-- The transaction monitoring system: a backend that follows a Cardano node, stores its
-- transactions, scores them and sends alerts. Modelled are the parts that keep state across
-- failures, those that decide who gets in, and those that read what an attacker writes; the paths
-- of the code below are under backend/app.
--
-- * Resilience (ingestion/resilience.py): `ExponentialBackoff` is Resilience/Backoff.antt,
--   `CircuitBreaker` is Resilience/Breaker.antt, and `run_with_reconnect` with
--   `_reset_if_stable`, the loop that both node connections run in, is Resilience/Reconnect.antt.
--   One element of a run is one round of the `while`, so that the loop is recursion on the list of
--   rounds. Clock readings and the ends of the awaited calls are data of the round.
-- * ChainSync (ingestion/ogmios_client.py, with the statements of db/postgres.py and
--   db/clickhouse.py that it runs): the handlers of `nextBlock` that the reconnect loop drives.
--   ChainSync/Forward.antt is `_handle_roll_forward` with `_parse_block_txs` and
--   `_write_raw_payloads`, ChainSync/Insert.antt is `_insert_block_with_retry`,
--   ChainSync/Backward.antt is `_handle_roll_backward` with the score repurges,
--   ChainSync/Quarantine.antt is `_quarantine_undecodable_block`, and ChainSync/Health.antt is
--   `pipeline_state`. The state is `World`; a handler returns `done` or
--   `raised` with the world that it leaves, since what an aborted handler wrote stays written.
--   Which outside calls fail is an `Env`.
-- * Lifecycle (the `tx_lifecycle` statements of db/postgres.py): Lifecycle.antt has the row and the
--   statements, Lifecycle/Machine.antt the step relation of their runs. The chain-sync handlers
--   call them.
-- * Notify (notifications/ and the notification tables of db/postgres.py): Notify/Ledger.antt is
--   the two dedup ledgers, Notify/DeadLetter.antt the failed notifications and
--   `_count_failed_attempt` of tasks/notifications.py, Notify/Triggers.antt the routing of
--   notifications/triggers.py and notifications/config.py, and Notify/Delivery.antt is
--   `_deliver_with_dedup` of notifications/__init__.py and `dispatch` of
--   notifications/dispatcher.py, which use the others; Notify/Retry.antt is `_retry_tick` of
--   tasks/notifications.py, which delivers the dead letters again.
-- * ChainTime (ingestion/chain_time.py): `SlotTimeConverter` from the era summaries on, in
--   ChainTime.antt.
-- * RateLimit (rate_limit.py): `RateLimiter` with its cleanup task, in RateLimit.antt, and
--   `RateLimitMiddleware`, which takes its keys from Auth, in RateLimit/Middleware.antt.
-- * Mempool (ingestion/mempool_monitor.py, with the collision rows of db/postgres.py):
--   Mempool/Pending.antt is `PendingTxIndex`, Mempool/Collisions.antt the table,
--   Mempool/Monitor.antt the state of `MempoolMonitor` and the calls of the chain client,
--   Mempool/Loop.antt the LocalTxMonitor loop, and Mempool/Client.antt fills with them the
--   interface `MempoolMonitor` of ChainSync.antt, which the chain-sync handlers take.
-- * Auth (auth/, api/auth.py and api/users.py): Auth.antt has the tables, Auth/Tokens.antt the magic
--   links, Auth/Sessions.antt the sessions, Auth/Users.antt what admins do to users, and
--   Auth/Login.antt the login and the guards of the routes. `request_link` uses RateLimit.
-- * Net (net.py): the client's address behind proxies, in Net.antt.
-- * Rpc (ingestion/ogmios_rpc.py): the salvage of a frame that does not decode, in Rpc.antt, which
--   the quarantine uses. Rpc/Lexical.antt has the lexical structure of JSON that its theorems are
--   about.
-- * Enrich (ingestion/input_enrichment.py, with `consumed_by_ledger` of models/transaction.py and
--   `get_outputs_for_refs` of db/clickhouse.py): the resolution of inputs, in Enrich.antt.
-- * Backfill (ingestion/address_backfill.py): the backfill of one address, in Backfill.antt; the
--   points that it starts from are those of KupoClient.antt (ingestion/kupo_client.py), where
--   Python's `sorted` is an insertion sort on the same key.
-- * Leader (leader.py, and the start, the standby loop and the end in main.py): Leader.antt, for any
--   number of instances on one server, whose events come in any order.
-- * Plutus (analysis/plutus_structure.py): the display tree of a datum. Plutus.antt is the walk with
--   its depth and its budget, Plutus/Shapes.antt the branches for CBOR and for JSON, and
--   Plutus/Decode.antt is `decode_datum_structure`. Plutus/Rendering.antt says what a complete tree is.
-- * Bech32 (utils/bech32.py): `convertbits`, in Bech32.antt.
-- * Prelude (shared helpers): tests on numbers, lists, tables keyed by text, and integers.
--   Tests: runs of the models, and the theorems at concrete inputs.
--
-- Times and durations are natural numbers of a unit that the file names; a comparison of a
-- difference of times is written as one of sums, which is the same on natural numbers. A SQL
-- statement is a function on the table, and one statement is atomic. The loops are structural, on
-- the rounds, the attempts or reconnects that are left, the messages or the rows. The walk over a
-- datum recurs on the depths that are left, 65 at the root, since `MAX_WALK_DEPTH` is 64 and the root
-- is depth 0. Only the inner loop of `convertbits` runs on fuel, of as many rounds as it has bits,
-- which is enough since a round takes one bit at least. Python's `random.uniform` and `math.log2`,
-- its `ipaddress` and `re` modules, `json.loads`, `cbor2.loads`, `str` methods, SHA-256, fresh random
-- ids, PostgreSQL's advisory lock, and the behaviour of channels, sockets and databases are arguments.
--
-- Not modelled: the parse of a transaction's JSON and its scripts and timestamps; Kupo's requests
-- and its health check; the analysis (features, baselines, scorers, graphs), which computes on
-- floating-point numbers; the other HTTP routes, mails, cookies and CSRF; the report and digest
-- tasks; the clustering service; schema creation; logging. API keys are taken to be ASCII, a
-- transaction of a block to be an object, and the header of the edge not to be X-Forwarded-For.
mod Prelude
mod Tests
pub mod Resilience
pub mod RateLimit
pub mod Lifecycle
pub mod Mempool
pub mod Auth
pub mod Net
pub mod KupoClient
pub mod Leader
pub mod Plutus
pub mod Enrich
pub mod Rpc
pub mod Backfill
pub mod Bech32
pub mod Notify
pub mod ChainSync
pub mod ChainTime
