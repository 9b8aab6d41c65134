-- ===== src/Lib.antt =====
-- A model of PUA, a workspace server that gives each resource (a task, a repository, a chat) an
-- agent, and of AgentHub, the daemon that runs the agents' sessions.
--
-- The parts and how they interact:
--   * Generation (Generation.antt, Generation/): the lifecycle of a resource's generation,
--     internal/serve/generation_lifecycle.go. Facts holds the snapshot of facts, the plan and the
--     guard; Normal the normalisation of facts (normalizeGenerationFacts, observedGenerationPhase)
--     with the intent in force; Steps and Plan the planner (planMessage, planLifecycleIntent,
--     planReceiptRecovery, PlanGeneration); Guard LifecycleGuardMatchesFacts and
--     GuardedLifecycleCommit; Legacy and Adapt the two functions that read the facts from a
--     generation record (AdaptLegacyGenerationFacts) and write a plan back to it
--     (ApplyLegacyLifecyclePlan). Safety, Fresh, Ownership, OperationId and Adapted hold the proofs.
--   * Mailbox (Mailbox.antt, Mailbox/): the durable message of a resource (Message) and the one that
--     goes next (Select: selectPendingMailboxMessage), of internal/serve/resource_mailbox.go, which
--     the lifecycle adapter and the reconciliation call; Operations holds acceptMailboxMessage,
--     cancelPendingSteerMessages and markResourceMailboxArchived, Generated
--     acceptGeneratedMailboxMessage, Promote promoteWaitingMessageLocked, and Counts mailboxCounts,
--     waitingMailboxMessages and the states that are shown. Order, Settled, Cancelled, Replayed,
--     Promotion and Counted hold the proofs.
--   * MailStore (MailStore.antt, MailStore/): the stored mailbox of a resource,
--     internal/serve/resource_mailbox_store.go. Maps holds maps by a key and the stable sort;
--     Receipts the receipt of a message; Outbox the notifications and appendUniqueMailboxOperation;
--     Schema the four documents, Hot the tests that decide what stays in the hot one, Documents
--     prepareResourceMailboxDocuments; Load loadResourceMailboxStoreInternal; Disk the directory and
--     the calls on it; Commit writeResourceMailboxStoreDocuments and
--     recoverResourceMailboxTransaction. Members, Entries, Mapped, Kept, Merged, Reloaded, Bounded,
--     Sources and Joined hold the proofs on the documents; Runs, Atomic, Recovery and Finished those
--     on the commit.
--   * Reconcile (Reconcile.antt, Reconcile/): reconcileResourceMailboxLocked of
--     internal/serve/resource_mailbox.go for a resource that is not archived, with the functions of
--     task_state_runtime.go, resource_idle.go, generation_lifecycle.go
--     (legacyLifecyclePlanStillCurrent) and agenthub_message.go beside it that it calls. Updates holds the changes of a message; World what a round
--     asks of the generation store, the runtime and the AgentHub client, and the monad of its steps;
--     Round the stages up to the lifecycle plan, Deliver the stages after it, Loop the iterations.
--     Steps is the state machine of a message's status, Sound what a round keeps, and Opened,
--     Followed, Interrupted, Frozen, Answered, Delivered and Bounds hold the proofs, a stage at a
--     time; Rounds has the loop as a sequence of rounds.
--   * Idle (Idle.antt, Idle/): the sleep of a generation that is idle, internal/serve/resource_idle.go.
--     Deadline holds projectResourceIdleState and the clock; Retire startIdleRetirementLocked, which
--     asks the planner; Reconcile reconcileIdleGenerationLocked. Settled, Projected, Due, Retired and
--     Reconciled hold the proofs.
--   * Scheduler (Scheduler.antt, Scheduler/): the Scheduler's configuration and its operations,
--     internal/app/scheduler.go, with NormalizeAgentBinding of internal/app/resource_agent.go.
--     Results, Schedules, Valid, Kept and Settings hold the proofs.
--   * Session (Session.antt, Session/): the durable session log of AgentHub,
--     agenthub/internal/session. Types holds the data of types.go; Project applyEvent; Merge and
--     Store the merge of streaming deltas, Append, Archive and the load of the history, of store.go;
--     Pages the pages of events; Messages buildDurableMessages of turns.go. Replay, Loads, Appends,
--     Durable, Archives, Paging, PagingBack, Delivery and Receipts hold the proofs.
--   * Version (Version.antt, Version/): Parse and Compare of internal/version/semver.go. Texts,
--     Grammar and Order hold the proofs.
--   * Update (Update.antt, Update/): the checks of a component manifest and the plan of an update,
--     internal/update/manifest.go and internal/update/plan.go, which use the versions.
--   * Prelude (Prelude.antt, Prelude/): shared names, Boolean tests, lists, options and texts.
--
-- How the model reads the code: a string is the list of its character codes, and a Go string type
-- with named constants is a data type with a constructor for each constant and one for other text. A
-- time is a number of nanoseconds, an integer is a natural number, and the priority of a mailbox
-- message is the source's plus 2. A function that changes a value through a pointer returns the new
-- value. Loops are structural recursion on the list they run over; the loop of the reconciliation
-- recurs on the number of iterations left, which the source bounds by 32. A
-- session's log is the state of one session: its events in memory, the durable events and the
-- snapshot. How each write to disk ends is an argument of the operation: an append to a session's log
-- or a write of the Scheduler's file may fail with its effect in place, and what a failed write
-- leaves of a log is whole lines. A message's number wraps at 64 bits. JSON decoding and
-- encoding (Codec, Payloads), the RFC 3339 parser and printer and the URL parser are parameters; what
-- is assumed of them is that the fields of a decoded JSON object can be encoded again (Encodes), that
-- a printed time is not blank and, for the deadline of a generation, that it is read back as it was.
--
-- A Go map is walked in the order of first insertion; the lists made of one are sorted, and only
-- expired entries of one time keep that order. The write and the recovery of a mailbox's documents
-- run against a directory, whose calls may each be refused, and stop where the process dies, which is
-- after a number of calls. Creating, writing, syncing and closing a file are calls of their own, and
-- the temporary of meta.json or commit.json itself is left out. JSON is not read or written there: a
-- document is its text in Commit and its value in Documents and Load.
--
-- The reconciliation runs under the lock of its resource: between the reads and writes of one
-- iteration no other writer changes the message, and each iteration sees the messages that were
-- accepted since the one before. Its error texts are kept where a message stores them.
--
-- Not modelled: locks, caches, metrics and subscribers of the session store, and its creation and
-- recovery of sessions; the effects of lifecycle plans; the locators and markers of the mailbox
-- store; the scheduler's wake-ups; the signature check of a manifest, which the standard library
-- does; HTTP, providers, files, the command line and the desktop app, which are input and output.
pub mod Prelude
pub mod Generation
pub mod Mailbox
pub mod MailStore
pub mod Reconcile
pub mod Idle
pub mod Scheduler
pub mod Session
pub mod Version
pub mod Update
