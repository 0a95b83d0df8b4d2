-- ===== src/Lib.antt =====
-- Verification of the payroll agent's decision core, job queue and outbound delivery (the Python
-- package `app`).
--
-- The agent reads payroll emails, resolves the submitted names against a client's roster, asks
-- when anything is unclear, and otherwise computes paystubs. The parts, and the files that model
-- them:
--
--   Roster, Contracts   app/models/roster.py, app/models/contracts.py: the shapes that the stages
--                       exchange, and the tests that their construction makes.
--   Reconcile           app/pipeline/reconcile_names.py: normalize_name, deterministic_match,
--                       reconcile_names, operator overrides included.
--   Rounds, Validate    app/pipeline/validate.py: the two detectors of hours that changed between
--                       clarification rounds, and validate, which turns drops and missing hours
--                       into issues.
--   Decide              app/pipeline/decide.py: check_one_to_one and the gate, which takes what the
--                       three stages above produce.
--   AliasLearning       app/pipeline/alias_learning.py, with update_known_alias of
--                       app/db/repo/pipeline_state.py and app/db/repo/roster.py: the nicknames that
--                       a reply confirmed, written back to the roster that Reconcile reads.
--   TaxTables           app/pipeline/tax_tables_2026.py: the tables that the engine looks up.
--   Withholding         app/pipeline/federal_withholding.py: IRS Pub 15-T, Worksheet 1A.
--   Calculate           app/pipeline/calculate.py: hours payload, gross, 401(k), FICA and net pay.
--   Jobs                app/models/job.py, app/db/repo/jobs.py: the durable queue that runs the
--                       stages.
--   Outcome             app/pipeline/result.py: what a stage or a delivery returns, how an exception
--                       is classified, and the slots of a delivery's attempts.
--   Store               the tables that a settlement reads and writes together.
--   Settlement          app/db/repo/job_settlement.py: the settlement of a leased job with its run
--                       (Settlement, Cases, Lease), of a delivery (Outbound, Delivery), the reaper
--                       of final attempts (Reaper), and the alarm that reads both tables (Alarm).
--   Handoffs            app/db/repo/outbound_handoffs.py, and in Handler
--                       app/queue/handlers/send_outbound.py: the fence before the mail provider,
--                       and how an operator's review ends it (Review) or makes the delivery due
--                       (Advance, of app/db/repo/jobs.py).
--   Handlers            app/queue/handlers/pipeline.py and app/queue/handlers/ingest.py, and in Resume
--                       app/queue/handlers/resume_reply.py, up to the call of the stages.
--   Drain               app/queue/drain.py: the tokens that the threads of a process hold, and in
--                       Once.antt drain_once: a claim, its dispatch and its settlement.
--   System              the transactions of Jobs, Settlement and Handoffs as the steps of one
--                       database, which any interleaving of the processes is a path of.
--   Backfill            app/pipeline/orchestrator.py::backfill_extracted, between the detectors of
--                       Rounds, which read the reply before it, and validate.
--   Runs                app/models/status.py, app/db/repo/runs.py: the status of a run and its
--                       writers, with rewind_for_reclaim of app/db/repo/pipeline_state.py.
--   Prelude, Decimal    text, lists, dictionaries, integers and Python's decimal arithmetic.
--   Samples, Fixture    employees, hours and rows that the test modules share.
--
-- State and operations. A stage is a pure function of its arguments, as in the code. The table
-- of employees and the table of jobs are lists of rows, and a statement on them is a function
-- from table to table; Jobs/Valid.antt makes the statements the steps of a relation. A raised
-- exception is an `err` of a result. The settlements and the handoffs are functions on a record
-- of tables, one function per transaction; the threads of a drain are a step relation on the
-- list of their phases. A UUID and a point of time are natural numbers, a text is the list of
-- its code points, a Decimal is an integer coefficient with a scale, rounded to the 28 digits of
-- the default context after every operation.
--
-- Bounds and fuel. The only recursion on fuel counts the digits of a coefficient; a number n has
-- at most n + 1 of them, which is the fuel. The results on exact sums ask for amounts that stay
-- below 10^28 cents together.
--
-- Parameters. `fold` is str.casefold followed by Unicode normalisation, `parse_uuid` and
-- `show_uuid` read and write the text of a UUID, `parse_decimal` is Decimal(text) over the
-- finite decimals, `to_interval` is the database's conversion of seconds, `dispatch` is the
-- handler of a job, `run_pipeline_now`, `resume_pipeline` and `process_inbound_event` are the
-- stages behind it, `find_business_by_sender` and `row_to_inbound` read a stored email,
-- `backoff` the retry delay that drain.py draws at random; `now`, new ids and new lease tokens
-- are arguments, since the database draws them.
--
-- A handler is one function, though other transactions may run between its statements.
--
-- Not modelled: the web routes, the mail provider (`send` is its answer to an authorization),
-- the language model, PDF and text templates, the database's connections and schema; the rest of
-- the orchestration, the clarification rounds, the send guard, the retries that a route
-- enqueues, and the start and stop of the worker threads. Of email_messages the outbound rows
-- are modelled; the aliases that a sent confirmation teaches are written to the table of
-- AliasLearning, which the settlement's record of tables leaves out, and the load of the roster
-- before that write is taken to succeed. A decimal past 10^26 makes
-- quantize raise in Python; the model's money does not. Among jobs of one priority and due time
-- the database may take any; the model takes the first of the table, and so it does for equal
-- lease ends and for rows of a join.
pub mod Prelude
pub mod Decimal
pub mod Roster
pub mod Contracts
pub mod Samples
pub mod Fixture
pub mod Reconcile
pub mod Decide
pub mod AliasLearning
pub mod Rounds
pub mod Validate
pub mod Backfill
pub mod TaxTables
pub mod Withholding
pub mod Calculate
pub mod Outcome
pub mod Jobs
pub mod Runs
pub mod Store
pub mod Settlement
pub mod Handoffs
pub mod Handlers
pub mod Drain
pub mod System
