-- ===== src/Lib.antt =====
-- A verification of the detection and response core of Mini SIEM, a service that takes in log
-- entries, checks them against detection rules, and stores, merges and answers the alerts. A path
-- of the program that is given in brackets stands in mini-siem/backend/src.
--
-- The parts and how they interact. A log (Types/Log, types/log.rs) is kept, sampled out or dropped
-- by the cost controller when it comes in (Costs, costs.rs and db/models/data_cost.rs: Policy has
-- the data, Keys the names of the counters, Classify what is read off a request, Decide the
-- decision, Usage its recording and the policies in cache and database). The detection engine
-- (Detection/Engine, detection/engine.rs) infers the tags of a log (`infer_tags`), picks the rules
-- of its tenant under these tags (`candidates`, from the index that `reload_rules` builds),
-- evaluates them (`evaluate_all`), counts the alerts (`tally`, Engine/Stats) and hands them on
-- (`deliver`); all of it together is `process_log`. A rule is one of five kinds
-- (Detection/CompiledRule, detection/compiled_rule.rs): counted logins (Rules/BruteForce), port
-- scans (Rules/PortScan, which the program leaves empty), indicators of malware (Rules/Malware), a
-- condition (Rules/Generic) and a correlation of several logs (Rules/Correlation,
-- detection/rules/correlation.rs: State has the definition, the group's state and the pure steps,
-- Evaluate the evaluation against the cache; Bounded, MakeRoom, Save and Capped are about the cap
-- on the groups, Stages about the events that a group needs). Conditions are in
-- Detection/Evaluator (detection/evaluator.rs), which looks at the normalised log of
-- Detection/Normalization (utils/normalization.rs). Rules keep their counters and groups in the
-- cache, a record of operations over any state (Detection/Cache, db/cache.rs);
-- Detection/Cache/Reliable says what the laws ask of it. The batcher (Alerting/Batcher,
-- alerting/db_batcher.rs) collects alerts, groups them by tenant and dedup key, merges those of
-- one key and writes them: Fingerprint and Merge have the key and the merging, Flush the flush and
-- the loop. The response engine (Response, response/engine.rs) picks the actions for an alert. The
-- counters of the cache with their first level in memory are in Db/Counters (db/redis.rs). Logs and
-- alerts travel through the queue (Queue, queue/kafka.rs: Connect the connection, Send the sending
-- with its retries, Limiter the limits by address, Forward a message on its way into a channel that
-- may be full, Consume the two consumers). A request carries a token (Auth/Middleware,
-- api/middleware/auth.rs), whose claims (Auth/Claims) are read with the keys of the identity
-- provider (Auth/Jwks, auth/jwt.rs). A handler is a sequence of steps that each may end the request
-- with a response (Api/Handler); Api/Tenant has the quotas (api/tenant.rs) and Api/Ingest the
-- intake of single logs and batches (api/handlers/logs.rs), which asks the cost controller. People
-- follow an alert in a case (Cases/Data, db/models/case.rs; Cases/Store changes and Cases/Open opens
-- one and escalates what is overdue, both in db/postgres.rs, whose queries are the operations of the
-- record `CaseTables`); Api/Cases has the handlers (api/handlers/cases.rs), Api/Rules those of
-- detection rules (api/handlers/rules.rs) and Api/Audit the audit events that they write
-- (utils/audit.rs). Api/Live has the live connections over which a tenant sees its alerts
-- (api/handlers/alerts.rs). Alerting/Worker does what is done with one alert from the
-- queue (alerting/worker.rs), Alerting/Manager has the direct path (alerting/manager.rs).
-- Reliability has the samples of latencies and of availability and their overview (reliability.rs).
-- Startup has the tasks that main.rs starts: Indexer writes logs into the search index in batches
-- (its child Site is a site with arbitrary answers, for the theorems), Retention deletes what the
-- tenants no longer keep, by the policies of Compliance (db/models/compliance.rs), Dispatch gives
-- each log to a worker of the detection engine, and Tasks has the registry with its drain at
-- shutdown and the smaller tasks. Db/Elastic is the client of the search index (db/elastic.rs) over
-- a client for HTTP. Packs has the curated packs of rules and what the engine reads of them, with
-- the derived reader of conditions in Detection/Evaluator/Stored; Api/Packs installs them
-- (api/handlers/packs.rs). Api/SignIn has the accounts and sessions (api/handlers/auth.rs), with the
-- users of Auth/Users (db/models/user.rs) and the refresh tokens of Db/RefreshTokens (db/redis.rs);
-- Api/Compliance the policies, reviews and evidence (api/handlers/compliance.rs), and Api/AuditTrail
-- the view of the audit events (api/handlers/audit.rs), whose chain is the subject of
-- Api/Audit/Chain.
-- Db/RateLimits has the scripts of the two rate limits (db/redis.rs), Reliability/Drills the replay
-- of logs and the drills (reliability.rs), Api/Reliability, Api/Costs and Api/Health the handlers of
-- these, of the data budget and of health and the numbers of a tenant (api/handlers/reliability.rs,
-- cost.rs, health.rs and dashboard.rs).
-- Prelude has the shared notation and the machine integers, texts and effects; Tests has the
-- theorems at concrete inputs.
--
-- How the code is modelled. Functions and fields keep their names. A fallible asynchronous
-- function is a function from the state of the services to a result and the new state
-- (Prelude/Eff), in which what was written before an error stays written. Instants are nanoseconds
-- since 1970, integers keep their width where the code can leave it (`i64` and `u64` conversions,
-- saturating and wrapping subtraction, counters modulo 2 ^ 64 and 2 ^ 32). Loops over lists are
-- recursion on the list, so no fuel is needed; the indexer's is one over what its channel receives.
-- The attempts to send an alert are the exception: they have `retries` + 1 rounds, which is enough
-- except where `retries` is the greatest number of 32 bits and the code never stops. A consumer of
-- the queue is given no message while it is paused. The evaluations of one log run concurrently in
-- the code; here each is one step and `schedule` says in which order they end. The rounds of the
-- batcher are an explicit sequence of received alerts and ticks. A hash map is a list of entries
-- in the order of their first insertion, and where the code goes through one, the theorems do not
-- depend on that order. What the channels, the limiter and the clock answer to a consumer of the
-- queue comes with each of its messages. The clock and the fresh identifiers that a call reads are its argument
-- `Call`.
--
-- What stands for code outside the repository is a parameter: the tables of upper and lower case,
-- floats by their bits, the regular expressions, the string matcher, the hash, the JSON codecs
-- (Types/External, Codec, Parsers), the cache server, the database, the queue and the notifiers.
-- The laws of the cache are for a server that answers, over a time in which no key expires.
--
-- Not modelled: logging and metrics, the unit tests in the sources, the tasks that write the
-- engine's counters to the cache every second, what the dashboard of costs shows, the choice of hot
-- keys to refresh (db/redis.rs), the lag metrics of the queue, the tasks around the alert worker, the
-- timers and the wiring of main.rs, signing and passwords, the configuration, the SQL queries, the
-- agent, the frontend and the deployment files: they are input and output, calls of libraries, or
-- stand apart from the parts above.
pub mod Prelude
pub mod Types
pub mod Detection
pub mod Alerting
pub mod Response
pub mod Compliance
pub mod Packs
pub mod Startup
pub mod Costs
pub mod Db
pub mod Queue
pub mod Auth
pub mod Api
pub mod Cases
pub mod Reliability
pub mod Tests
