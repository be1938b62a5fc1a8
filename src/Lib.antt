-- ===== src/Lib.antt =====
-- Close Control reconciles the payments of a gateway with a ledger and a bank, lets a language model
-- propose resolutions, and keeps a queue in which people review what is left. This library models
-- the deterministic code that decides: what is matched, what is called an exception, what may be
-- resolved without a person, what a person may do, and what the audit trail shows of it.
--
-- Parts, in the order of the data:
-- * Matching/Blocking (matching/blocking.py, `build_blocks`) selects the bank rows that a settlement
--   is compared with; Matching/Engine (matching/engine.py) has `_best_single_candidate` and
--   `_best_pair` in Engine.antt, the passes of `run_matching` in Engine/Passes.antt and its loop, with
--   the set of consumed rows passed on, in Engine/Loop.antt. The thresholds of matching/config.py
--   stand in Matching.antt and where a pass uses them.
-- * Matching/LedgerCheck (matching/ledger_check.py) classifies each payment; `judge` and
--   `judge_amount` are the branches of the loop in their order. Matching/Report (matching/report.py)
--   joins it with the match of its settlement, and picks the final exception by EXCEPTION_PRIORITY.
--   Matching/Exceptions has the exception types as data.
--   Matching/SettlementBuilder (matching/settlement_builder.py) has the settlements that the rows of
--   the gateway belong to, and Matching/RootCause (matching/root_cause.py) the clusters of escalated
--   cases. Matching/Diagnostics (matching/diagnostics.py) has the controls over the results.
-- * CashPosition (cash_position/engine.py) puts each row of the report in a bucket on a date and
--   adds the buckets up; CashPosition/Daily forecasts what is in transit, over the days of Calendar
--   (data_generation/utils.py). CashPosition/BankSide is `_bank_side_coverage`, and
--   CashPosition/ReconciliationStatement the rest of cash_position/reconciliation_statement.py.
-- * JournalEntries (journal_entries.py) drafts the double entry for a row of the report.
-- * Agent/Policy (agent/policy_kb.py), Agent/Evidence (agent/evidence.py, agent/evidence_check.py) and
--   Agent/Gate (agent/gate.py, `apply_gate`) decide on a proposal of the model; the proposal
--   (agent/schema.py) and the thresholds (agent/config.py) stand in Agent.antt. Investigator
--   (investigator/loop.py, `investigate`) is the loop of tool rounds whose result goes to that gate,
--   with the final answer of investigator/ollama_client.py; Investigator/Tools (investigator/tools.py)
--   has what two of its tools answer.
-- * Review (review_backend/state_machine.py, `next_status`) is the state machine of a case;
--   Review/Submission (review_backend/models.py) validates a request; Review/Cases and Review/Store
--   (review_backend/main.py) derive the status of a case from its reviews, and are `submit_review`
--   over the tables; Review/Proposals and Review/Seed (scripts/seed_review_queue.py, `seed`) make the
--   cases from the audit log; Review/Listing is `list_cases`, with its pages; Review/Corrections
--   (corrections.py) is what a later prompt shows of the overrides; Review/Bulk is `bulk_review`,
--   which calls submit_review for a set of cases, and Review/Reverify is `reverify`, which calls it
--   for the open cases that a new run of the matcher finds clean; Review/Chain
--   (review_backend/chain.py) hashes and verifies the reviews; Review/Sla (review_backend/sla.py) has
--   the deadlines in business days, and Review/CycleTime (review_backend/cycle_time.py) the time that
--   the cases stand in each status; Review/Stats is `stats`, which puts these together.
-- Base holds what the modules share, and Tests runs the model on concrete data.
--
-- How the code is read:
-- * A sum in rupees is an integer number of paise, signed where the code has signed sums; a tolerance
--   or a fraction is multiplied out. Floats are not modelled: a sum is read as if it were exact. Where
--   the code compares an unrounded sum with 0.02, a difference of exactly two paise can fall on
--   either side there, and the model has it within; the results on single exact matches and on the
--   recovery of a loan keep clear of it. The NaN that the frame makes of a missing amount is modelled
--   in JournalEntries and in the amount at risk of Review/Proposals and Review/Seed.
-- * A confidence is a decimal fraction, compared exactly, as floats are for up to fifteen digits. A
--   date is an ordinal of its day.
-- * A text that the code compares with fixed texts is an enumeration, with a constructor for any
--   other text where the code accepts one. Texts written for people (reasons, narration, messages)
--   are left out, or are constructors. `lower` and `strip` go by the ASCII characters, the Kelvin
--   sign and the spaces of Python.
-- * An exception with a status code is a value of the result; the tables are lists, and a call of an
--   endpoint is one transaction that another follows. Review/Store/Interleaved takes `submit_review`
--   apart where it takes the advisory lock, and has the schedules of calls that overlap.
-- * The digest of a review (SHA-256 over JSON) and the sorting of pandas are parameters: the records
--   `Digest` and `Sorting` hold what is relied on. One theorem assumes that digests do not collide.
-- * Loops are recursion over their lists. The two `add_business_days` walk an unbounded range: the
--   fuel is three days for each business day, since of three days in a row one is a business day, and
--   where the calendar has holidays three days more for each day up to the last of them; the theorems
--   on them show that this is enough. The rounds of an investigation go by their limit.
-- * The keys of a group-by of pandas, the language model, its tools and the parser of its answers are
--   parameters as well (`Grouping`, and `Outside` of Investigator); so are the order and the patterns
--   of the database in Review/Listing (`Database`), the hash of a proposal in Review/Proposals
--   (`Outside`), and the times, their rounding and the order of a set in Review/CycleTime (`Clock`).
--
-- Not modelled: the calls of language models (agent/client.py, agent/providers), the other tools of
-- the investigator and the assistant (qa_agent), the numeric grounding of texts, which decides
-- nothing, the block statistics, the Benford test and the assignment of matching/diagnostics.py, the
-- ratios of matching/root_cause.py, the other endpoints of review_backend/main.py, and the code that
-- loads, generates, caches, evaluates or shows data.
pub mod Base
pub mod Calendar
pub mod Review
pub mod Agent
pub mod Investigator
pub mod Matching
pub mod CashPosition
pub mod JournalEntries
pub mod Tests
