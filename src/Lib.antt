-- ===== src/Lib.antt =====
-- Verification of skcoord, the coordination layer of a fleet of agents: the event-sourced records of
-- its ITIL process (incidents, problems, changes) and its cards.
--
-- Every record is a file of birth facts (core.json) and a set of event logs, one for each writer. The
-- current state is stored nowhere: each read folds the merged events over the birth facts. The code
-- verified here is those folds and what decides on them: who may approve a change, who
-- owns a card, and how the board's files for its agents follow the cards.
--
-- The parts, and the files that model them:
--   Prelude           shared names: tests, lists, texts, dicts, integers, and the results of code that
--                     raises (`Result`, with the exceptions in Errors).
--   Itil/Event        an event line and a timeline entry, from skcoord/itil.py (under the repository's
--                     src directory). An absent key with a text default is the empty text.
--   Itil/Cab          CAB votes and which of them qualify (_is_human_approval).
--   Itil/Change       _fold_change. Model has the statuses and the transition table, Gate has
--                     _cab_resolved_status, Fold the loop (its local variables are the record State,
--                     its chain of branches on the event's kind is the data type Kind with one clause
--                     of `apply` each), Settle the derivation behind the loop and the record returned.
--   Itil/Incident     _fold_incident, in the same form.
--   Itil/Problem      _fold_problem, in the same form.
--   Itil/Manager      calls of ITILManager: Ballot has submit_cab_vote, Update has update_change with what
--                     it announces and the tasks that it emits.
--   Card              CardStore.fold of skcoord/card_store.py. Event has the events and the actions,
--                     Claim the branches on ownership, Runs those on agent runs, Fold the rest and the
--                     loop, Release the precondition that a caller reads before it releases a claim.
--   Board             the overlay of skcoord/card.py. Overlay has its events and their translation to the
--                     store's events, Validate has validate_overlay_event, Patch has fold_overlay and
--                     the application of a patch by KanbanBoard.cards, Grid its grid and its wip_report.
--   Graph             would_create_cycle of skcoord/dependency_graph.py, with its stack and its set of
--                     cards seen, and amend_dependency of skcoord/card_store.py, which calls it.
--   Coord             the board of skcoord/coordination.py. Model has tasks and agent files, Views the
--                     derived status and claimant of a task (_legacy_task_views), Claim _claim_task,
--                     Release _release_claim_locked with its check of the card's fold, and Complete
--                     complete_task with its guards. The card store is what its fold returns.
--   Ledger            what the same file keeps on a task of its runs: Model has score_task,
--                     record_attempt, clear_attempts and record_success, Grade has set_grade,
--                     and Edits the change of _update_task_unlocked.
--   Gates             validate_exit_gates of skcoord/abandon_reason.py.
--   Lifecycle         _audit_lifecycle_unlocked of skcoord/lifecycle.py, in Audit, and the two loops of
--                     _repair_lifecycle_unlocked, in Repair. Their dicts are lists of pairs, in the
--                     order of their insertion.
--   Portfolio         skcoord/portfolio.py with skcoord/portfolio_contracts.py. Model has the records,
--                     Contracts their validators, Quality and Candidate the reasons against a plan and
--                     against a card, Evaluate evaluate_portfolio, and Review
--                     evaluate_review_completion. A set of reasons is the list of the tests that hold;
--                     IsoFormat has Python's datetimes, the text that isoformat prints of the
--                     years 1 to 9999, and the OverflowError outside them.
--   Tests             concrete inputs.
--
-- Votes, tags and events are lists in the order in which the code's readers return them; the folds take
-- any list. Loops over lists are structural recursion; the search of Graph runs on fuel, a unit for each
-- card popped off its stack, and starts with one unit more than there are edges: behind the first card,
-- only the edges of a card that was not seen before put cards on the stack. `datetime.fromisoformat` is
-- a parameter of the votes' model, and `now` is the clock's text. JSON values of the wrong type are out
-- of the model: each key has the type that the writers give it. `unicodedata.normalize` and the machine's
-- time zone are parameters of the portfolio's model.
--
-- A completion on the board ends where its event is mirrored, and a write that fails is not modelled.
--
-- Not modelled: files, locks and JSON, the leases of claims and the restoring of agent files,
-- signatures, the rendering of boards and the command line, the CMDB, discovery, the canonical JSON and
-- the allocations of portfolios, the receipts and the rollback of a lifecycle repair, recovery tools and
-- the review broker.
pub mod Prelude
pub mod Itil
pub mod Card
pub mod Board
pub mod Graph
pub mod Coord
pub mod Ledger
pub mod Lifecycle
pub mod Gates
pub mod Portfolio
pub mod Tests
