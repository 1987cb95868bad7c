-- ===== src/Lib.antt =====
-- A verification library for the candidate-screening backend: CVs are read, filtered by hard rules,
-- ranked by retrieval against a JD, cut off, evaluated by a language model and scored.
--
-- The parts and how they interact. A campaign has JDs and CVs, and one pair for each JD and CV. The
-- coordinator (app/campaigns/coordinator.py) leases pairs to workers, cuts off a JD once all its pairs
-- are retrieved, leases the shortlisted pairs for evaluation, and completes JDs and campaigns. The
-- workers (app/workers/tasks.py) compute outside any transaction, by the hard filters
-- (app/stage1_rules) and the scoring (app/stage3_evaluation), and write their results in a
-- transaction that checks the lease again. A stored decision can be replayed from its stored output
-- (app/run_audit.py). A batch can also be screened in one call: the synchronous pipeline
-- (app/orchestrator.py) takes candidates through the same stages and keeps an outcome for each, and
-- what it returns is stored only if validate_accounting (app/run_audit.py) accepts it.
--
-- Which file models which part:
--   Prelude              tests, lists, and tables of rows with a primary key
--   Rules/Contracts      app/stage1_rules/contracts.py: the inputs of the hard filters
--   Rules/Engine         app/stage1_rules/rules_engine.py: evaluate_stage1_hard_filters
--   Scoring/Schemas      app/stage3_evaluation/schemas.py: the records
--   Scoring/Weights      app/stage3_evaluation/scoring.py: weighted_score, calculate_decision_tier
--   Scoring/Outcome      score_evaluation and failed_evaluation of scoring.py, and the validator
--                        validate_outcome of schemas.py
--   Scoring/Registry     app/stage3_evaluation/evidence.py: build_evidence_registry
--   Scoring/Evidence     app/stage3_evaluation/evidence.py: verify_evidence
--   Scoring/Replay       app/run_audit.py: policy_snapshot, recompute_stored_decision
--   Campaign/Rows        app/models/database.py and app/config.py: the campaign tables, the settings
--   Campaign/Lifecycle   the states of a pair, and what a transaction keeps of it
--   Campaign/Claims      the loop that hands out leases
--   Campaign/Dispatch    app/campaigns/coordinator.py: dispatch_pairs
--   Campaign/Cutoff      finalize_ready_jds, with candidate_sort_key and eligible of
--                        app/stage2_retrieval/coverage.py
--   Campaign/Evaluation  dispatch_stage3
--   Campaign/Completion  finalize_campaign
--   Campaign/Worker      app/workers/tasks.py: the transactions of execute_campaign_pair,
--                        execute_campaign_stage3 and coordinate_one_campaign
--   Campaign/Reservation app/campaigns/persistence.py: reserve_campaign
--   Campaign/Storage     app/campaigns/persistence.py: reserve_cv, stage_pdf, finish_stage0,
--                        campaign_counts
--   Campaign/Inflight    the counts of pairs that workers hold
--   Campaign/Extraction  app/workers/tasks.py: the claim of a document in execute_campaign_stage0
--   Campaign/Transactions  sequences of the transactions of the coordinator and of the workers that
--                        extract, retrieve and evaluate, one for each JD in finalize_ready_jds
--   Runs                 app/workers/tasks.py: the transactions of execute_run and
--                        find_recoverable_runs on app/models/database.py: ScreeningRunModel
--   Pipeline/Ledger      app/orchestrator.py: stage1_verification, the outcomes and the metrics
--   Pipeline/Stages      its loops over candidates, survivors and payloads, and
--                        rank_and_filter_candidate_batch of
--                        app/stage2_retrieval/evidence_extractor.py
--   Pipeline/Run         its third stage, finish, and run_end_to_end_screening_pipeline
--   Pipeline/Accounting  app/run_audit.py: validate_accounting
--   Pipeline/Books       the invariant of the pipeline's state; the other files of Pipeline/ are the
--                        lemmas on its changes and loops (Changes, Filing, Moves, Filter, Sifting,
--                        Extract, Cut, Evaluate, Screening, Start) and on its results (Acceptance,
--                        Total, Ranking, Soundness, Leaderboard)
--   Provider             app/campaigns/provider_limit.py: admit with its Redis script, release,
--                        retry_delay
--   Tests                runs on small inputs
--
-- State and operations. The tables are lists of rows; a transaction is a function from tables to
-- tables, and an exception rolls it back. Concurrent workers are modelled by sequences of
-- transactions in any order. That fits transactions that lock the rows they write when they read
-- them: those of the workers on a pair, a document or a run, dispatch_pairs, dispatch_stage3 (both
-- under an advisory lock, for their counts over all campaigns) and finalize_campaign.
-- finalize_ready_jds commits once for each JD; it locks the JD and reads the JD's pairs without a
-- lock, when each has ended or waits for the cut-off (finish_stage0 writes only pairs of a document
-- that is not published yet). reserve_campaign, reserve_cv and find_recoverable_runs lock nothing
-- before they write: they take the tables that they saw and those that they write. Identifiers,
-- lease tokens, hashes and times are numbers. `uuid4()` is an argument that gives the tokens and
-- keys. JSON that no modelled code looks into is its text. Scores of an evaluation are counted in a
-- unit fine enough for all of them (`unit` steps to a point), the composite score in hundredths of
-- a point, and retrieval scores in millionths, so Python's decimal arithmetic is arithmetic on
-- natural numbers here. Every function is structurally recursive, so there is no fuel. In the
-- pipeline, `outcomes` is an association list, the services are arguments that may raise, and
-- candidates are numbers with a function to their names.
--
-- Not modelled: what regular expressions find in a text (an input of the hard filters), the
-- language model and the retrieval models (their results are arguments of the workers'
-- transactions), the HTTP interface, PDF extraction, the broker, and Redis apart from the script of
-- the admission. Row locks that other transactions hold and that a query skips are not modelled: a
-- dispatch considers all rows. Nor are recover_campaign_stage0 and the other recovery tasks of
-- campaigns, which send messages again and write no pair.
pub mod Prelude
pub mod Rules
pub mod Scoring
pub mod Campaign
pub mod Runs
pub mod Pipeline
pub mod Provider
pub mod Tests
