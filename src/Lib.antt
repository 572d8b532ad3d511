-- ===== src/Lib.antt =====
-- Quant Factory: the durable launch of research runs and the checks and tests of trading strategies.
--
-- The program researches trading strategies: it tests saved configurations on market data stage by
-- stage, keeps every run in a SQLite database, and hands the work of a run to Prefect. These parts are
-- modelled.
--
-- Launch (orchestration/research_launch_claims.py, persistence/repositories.py, persistence/models.py).
-- `DurableResearchLaunchService` claims a research launch under an idempotency key, hands it to one
-- dispatcher, binds the Prefect flow run that acknowledges it, and resolves the launches whose fate
-- is unknown. Its state is the database: `Persistence.antt` has the records of persistence/models.py,
-- `Persistence/Runs`, `Persistence/Events` and `Persistence/Submissions` have the methods of
-- `RunRepository`, `RunEventRepository` and `ResearchRunSubmissionRepository`, each with the guard of
-- its UPDATE, over tables that are lists in the order of insertion (`Persistence/Tables`).
-- `Launch/Requests` has the checks of keys and texts and `_normalize_request`, `Launch/Lineage`
-- `_manifest_checksum` and `_derive_source_lineage`, `Launch/Claims`
-- `_canonical_request_for_configuration` and `_validate_persisted_claim`, `Launch/Operations` the
-- writing operations from `claim` to `abandon_unknown`, `Launch/Binding` `bind_prefect_identity` and
-- its two callers by run, and `Launch/Dispatch` the readers and `dispatch`.
--
-- An operation is a function from the database to a result and the database after it. `_immediate`
-- keeps the writes of a block that ends and drops those of a block that raises; SQLite gives one
-- process at a time the database, so an interleaving of processes is a list of operations
-- (`Launch/Lifecycle`, `Launch/Consistency`). Each operation has a `Call` for what it meets outside
-- the program: whether the database stays locked, the times that `utc_now` reads, the fresh run
-- identity and the failure injected into a claim. SHA-256, `json.loads` and `canonical_json` are the
-- record `Codec` of `Python/Json`, of which no law is used. A time is a text; a stored time is never
-- the empty text. `Launch/Steps` states what a transaction may write as the relation `Commit`, and
-- the properties of sequences of calls follow from it. The type checks of arguments, which the types
-- of the model make, are left out, as are the messages of exceptions; an exception is its class.
--
-- RunService (orchestration/run_service.py, orchestration/fixture_contracts.py): `launch_fixture`,
-- which claims, prepares and dispatches a launch through the operations of Launch. The launcher is an
-- arbitrary function on the database with, for a call that is waited for, the database at the end of
-- the timeout where the call is still running; what its thread writes later is the step of another
-- process. `RunService/Preparing` has what only reads, `RunService/Launches` the rest.
--
-- FilterChain (orchestration/filter_chain.py): `FactoryFilterChainService` over the same database.
-- `FilterChain/Reserving` has `_reserve_stage_run` and the call of an adapter with what follows its
-- exception, `FilterChain/Checking` `_validate_persisted_reference`, and `FilterChain/Running` the
-- loop of `_run` over the four stages, `run` and `reopen`. The adapters are arbitrary functions on
-- the database. The evidence service, which opens stored artifacts, is the record `Surroundings`.
-- `FilterChain/Evidence` has what an answer of that service means for a handoff, `FilterChain/Reached`
-- the stages that a chain has passed, and `FilterChain/Justified` what makes an outcome right.
--
-- Campaign (agent_gateway/auto_campaign.py, agent_gateway/store.py): the background test of ideas.
-- `Campaign.antt` has the append-only log of `GatewayStore`, the latest event first,
-- `Campaign/Records` the states of an idea and what a test reads, `Campaign/Testing` `_process`,
-- `Campaign/Passes` the loop of `run_once` and the restart, and `Campaign/Queueing` `_queue` and
-- `run_once`. The packet readers, the data sets and the child process of a test are the record
-- `Neighbours`; the drafts and the stop signals of a pass are the record `Pass`. The time and the
-- policy of an event, which nothing here reads, are left out.
--
-- WalkForward (backtesting/walk_forward/splitter.py, models.py, sessions.py):
-- `build_walk_forward_windows` over the labels of the rows, numbers that stand for timestamps, with
-- their sessions or calendar days as sessions.py gives them. The schedule of the exchange calendar,
-- a third-party package, and pandas' `normalize` are arguments. The loop runs on fuel, one more
-- than the number of rows, since each round moves the cursor on.
--
-- Chunking (backtesting/experiments/chunking.py): a parameter sweep in chunks of settings. The
-- callbacks, the engine, the frames and the figures of one portfolio are the record `World`. The
-- range of starts is cut at the number of settings, which is enough since a chunk is not empty.
--
-- OutOfSample (backtesting/out_of_sample/splitter.py): `split_chronologically` and `in_sample_slice`
-- over timestamps, with the day of a timestamp and the shares of the days as arguments.
--
-- RuleLanguage (rule_language/validation.py, rule_language/indicators.py): `validate_rule_spec` over
-- JSON documents. A check of `_Validator` returns the normalized copy with the names that it adds to
-- `self.used`; `RuleSpecError` is its class, without path and message, and `OverflowError`, which
-- `math.isfinite` raises on an integer that no float holds, is an error of its own. `Nodes` has
-- `_object`, `_pair` and `_operator`, `Parameters` the numbers and `param`, `Indicators` the
-- catalogue and the library nodes, `Series`, `Conditions`, `Exits` and `Specs` the methods of the
-- validator. The tests of floats are the record `Floats`, the classes of VectorBT PRO `Library`.
-- `series` and `condition` run on fuel, 32, the levels that `_check_size` allows; its own loop runs
-- on fuel for the 500 elements that it allows, and one round each for the refusal and the end.
--
-- Strategies (strategies/parameter_governance.py, strategies/models.py): the checks of a parameter
-- plan and its summary, with the type of the values as an argument; `Strategies/Products` is
-- `itertools.product`. `Campaign/Combinations` has `parameter_combinations` of
-- orchestration/auto_campaign.py, which gives a rule strategy the settings to be tested with.
--
-- `Python` has the exceptions, the results and the text methods that the sources use, `Prelude` the
-- Boolean tests and the lists.
--
-- Not modelled: the numbers of a backtest, which are floating-point arithmetic of pandas, NumPy and
-- VectorBT; the dashboard, the gateway's sockets, downloads and scripts, which are input and output;
-- and the remaining stages, filters and services.
pub mod Prelude
pub mod Python
pub mod Persistence
pub mod WalkForward
pub mod Launch
pub mod FilterChain
pub mod Campaign
pub mod Chunking
pub mod RuleLanguage
pub mod Strategies
pub mod OutOfSample
pub mod RunService
