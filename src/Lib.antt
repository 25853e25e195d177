-- ===== src/Lib.antt =====
-- The ticket store of the dev-loop hub, and the rules that agents and the operator write it by.
--
-- The hub keeps tickets, comments and events in SQLite (hub/src/db.ts). Every write goes through
-- one layer (hub/src/ticketwrite.ts), which asks a chain of gates, derives labels, assignee and
-- the column `waiting_on`, and logs events. The gates read the designs of the board
-- (hub/src/design-parent.ts), the local git tree (hub/src/handoff-gate.ts, hub/src/ac-gate.ts)
-- and the bail shapes of comments (hub/src/bail-shape.ts). Beside it stand the readers of
-- `Blocked-by:` markers and the dependency graph, the breaker that slows failing lanes, the
-- ledger of approvals, the rotation of the scheduler over projects and its pause, the choice of
-- the tickets that a tier of developers is served, the guards on what is committed, handed to
-- review and merged (the last one reads the forge and writes its objection to the board), the
-- file locks that processes serialise on, and the release decision.
--
-- Files and the code that they model:
--   Store.antt             hub/src/db.ts: State, Ticket, Comment, Actor, Project, Event, Db; actorExists
--                          (actor_exists), actorIsHuman, nextTicketId, logEvent
--   Bail.antt              hub/src/bail-shape.ts: parseBailShape, latestBailShape
--   Design.antt, Design/   hub/src/design-parent.ts: designPointerOf, docSlugOf, resolveDesignParents and
--                          the three readers of its result
--   Ticket/Labels.antt     hub/src/ticketwrite.ts: applySensitiveRetier, applyTierRestore, waitingOnFor,
--                          reconcileBailShapeLabels
--   Ticket/Gates/          hub/src/ticketwrite.ts: the gates on states (States), on design parents
--                          (Designs), and what stands behind them, with their chain (Chain)
--   Ticket/Handoff.antt    hub/src/handoff-gate.ts
--   Ticket/Acceptance.antt hub/src/ac-gate.ts
--   Ticket/Update.antt     updateTicketRow, moveTicket, assignTicket
--   Ticket/Insert.antt     insertTicket, createTicket, inheritSensitiveFromDesignParent
--   Ticket/Comments.antt   insertComment, rulingCommentPolicy, recordRuling, addComment
--   Ticket/Rulings.antt    parseRuling, rulingBody
--   Ticket/Invariant/      the form of the board, and the stores that writes reach
--   Blockers.antt          hub/src/blocked-by.ts, hub/src/ticket-id.ts
--   Graph.antt             hub/src/dependency-graph.ts: the integrity flags of blocked tickets
--   Graph/FanOut.antt      transitiveReverseFanOut: reverse (reverse_into), its while loop (walk)
--   Graph/Cycles.antt      findCyclic: dfs, its loop over neighbors and over the ids
--   Graph/Report.antt      dependencyGraph: the assembly of the report
--   Breaker/               hub/src/breaker.ts: the entries and the ends of probes (State), the keys of
--                          failures (Keys), record (Recording), markProbe, isOpen and intervalFor
--                          (Lanes), classifyFireError (Classify), snapshot and restore (Persist)
--   Approvals/             hub/src/approvals.ts: the rows and their statements (Ledger),
--                          requestApproval, grantApproval, revokeApproval and dischargeApproval
--                          (Calls), consultApproval (Consult), parseActionKey, parseDuration and
--                          resolveExpiry (Keys)
--   Guards/Stage.antt      hub/src/stage-guard.ts: evaluateStaged, stagedFiles, stageGuardCmd
--   Guards/Admission.antt  hub/src/review-admission.ts: extractGhRepo, checkReviewAdmission
--   Locks.antt, Locks/     hub/src/locks.ts: acquireLock and its release, as steps of processes on two files
--   PrTickets.antt         hub/src/pr-tickets.ts: prTicketIds, ticketFromBranch, with ticketIdScanRe
--   Landing.antt, Landing/ hub/src/landing.ts: deltaIsCiIrrelevant and readCiFreshness (Freshness),
--                          readPrReviewState (Review), prToTicket, probeTicketPr, ticketToPr and
--                          annotateTicketLanding (Probe), extractGitHubRepo and isAuthError (Remote),
--                          readLandingState for one repository (Stall)
--   MergeGuard/            hub/src/merge-guard.ts: the registry (Config), types and eligibility (Results),
--                          the three axes of mergeGuard (Tickets, Reviews, Checks), buildCommentBody
--                          (Objection), applyTrip (Apply), the composition, unevaluatedHold and the exit
--                          code (Run)
--   Rotation.antt          hub/src/rotation.ts: rotationCandidates, stewardProjects, smoothWRRStep,
--                          pickAndAdvance; Rotation/ has its laws
--   Servable.antt          hub/src/servable.ts: servableSlice, the lanes of pm and qa,
--                          seniorDevModePick, servableTodoDepth, servableBacklogDepth
--   Pause.antt             hub/src/scheduler-pause.ts: readPause, writePause, clearPause
--   Release.antt           hub/src/release-mode.ts: releaseDecision
--   Common/                lists, maps, texts and Boolean tests that the files share
--
-- How state is modelled. A table is the list of its rows in the order of insertion, a write is a
-- function from the store to a result with the store after it, a refusal is a constructor of
-- Rejection with the values that the message names, and `thrown` is an exception that the
-- caller's transaction undoes. Columns with a CHECK are data types; columns that hold JSON arrays
-- are lists of texts. A time is a number of milliseconds. Texts are sequences of code points,
-- compared by them where the source sorts.
--
-- What is a parameter. The clock, the id of a comment, the fire that a request names, the
-- resolved workspace configuration and the output of every git command are fields of Env
-- (Ticket/Env.antt); the hash of breaker keys is an argument, and so are the answers of git and
-- gh for the guards: a call of gh fails, throws, prints something that is no JSON, or gives the
-- value (Landing.antt). The text of a verdict's reason in an objection is an argument too.
-- Weights of projects are whole numbers, and their cursors are integers (Common/Int.antt). The
-- order of `localeCompare` is an argument of the report.
--
-- Locks are a step relation over the two files, the clock and the processes that live; each step
-- is one call on the file system.
--
-- Loops are by structural recursion, but for two that run on fuel. The walk of the fan-out takes
-- one round for each ticket on its stack and each entry of the reverse map, and one more. The
-- search for cycles goes as deep as the board has ids, and one more. Both end within that, on
-- every board.
--
-- What is not modelled: migrations and the other tables of the store; the files of the breaker
-- and of the rotation; the text of a pause; the lines that the merge guard prints; sleeping and
-- deadlines of the locks, which are nondeterminism there; the scheduler process, the daemon and
-- its views, the command line, the installers, the Linear mirror, the guards that parse git
-- commands, and everything outside hub/src.
pub mod Common
pub mod Approvals
pub mod Bail
pub mod Blockers
pub mod Breaker
pub mod Servable
pub mod Store
pub mod Design
pub mod Graph
pub mod Guards
pub mod Locks
pub mod PrTickets
pub mod Landing
pub mod MergeGuard
pub mod Pause
pub mod Release
pub mod Rotation
pub mod Ticket
