-- ===== src/Lib.antt =====
-- The autonomy runtime: an agent takes messages from its inbox, asks a planner for a decision,
-- checks the decision against the rules of its type, checks the wiring of a plan's steps, and runs
-- the steps in order. Paths are from the root of the repository.
--
-- The parts, and the files that model them:
--
-- Decision (src/decision.go, src/decision_rules.go, parts of src/action.go, src/plan_input.go and
-- src/completion_contract.go). Decision.antt has the types, DecisionMaker.Decide on what the
-- reasoner's call answers, isDone, Concludes and TaskStatusFor; Decision/Steps, Decision/Needs and
-- Decision/Rules have the checks, decisionRules and validateDecision. A check answers with what
-- broke the rule (Decision/Detail), where the source answers with a sentence; "" is `none`.
--
-- Plans (src/plan_input.go, src/plan_lineage.go, src/action.go, the loop of executePlan in
-- src/runtime.go, src/capability/capability.go, src/capability/spec/spec.go, src/asset.go). The file
-- of parseInputSource is Plan/Source; of the factory and the declared fields, Plan/Capability; of
-- validatePlanLineage, Plan/Lineage; of resolveStepInputs, Plan/Resolve; and Plan/Run has
-- CapabilityAction.Execute, fillTaskID and the loop. A capability's Run is a function of its input
-- and of a world `W` that it may change: what a capability does lies outside the program, so `W`,
-- the World Model that is read from it, and Run are parameters. `Option (Factory W)` is the active
-- factory; `none` is a runtime that has none.
--
-- Inbox (src/message.go, src/db/sqlite_inbox.go, src/inbox.go). Inbox/Store is the table by its SQL,
-- over rows in the order of their ids. Inbox/Queue is the queue of one agent: a state holds what the
-- goroutines share and the goroutines themselves, each at a point between two sections under the
-- lock or two calls of the store; a step moves one goroutine, and an interleaving is a list of such
-- steps mixed with arriving messages, with starts of the consumer from outside and with the drain
-- that pauses and resumes. Each call of the store may fail, before or after it changed the table;
-- the handler's outcome is chosen from outside too.
--
-- Verification (src/verification.go). Verify/Tools is outputKind, inputForKind, toolForKind and
-- isVerificationTool; Verify/Judge is verifyCriterion, authorityFor, askAuthority and verifyDone;
-- Verify/Contract is validateCompletionContract, and Verify/History is taskStepOutputs over the rows
-- that the store answers. strings.EqualFold on any two texts is a parameter, `same_fold`; the pinned
-- criteria, which come from the store, are an argument.
--
-- Cycle (executePlan, recordPlan and recordStep of src/runtime.go, pinCompletionContract and
-- pinnedCompletionContract of src/completion_contract.go, src/db/sqlite_verification.go). Cycle.antt
-- has Execute as a whole: a state holds the rows of the task that the cycle belongs to and the world
-- of the capabilities, and what the store answers to a plan is given from outside. parseCriterion is
-- a parameter, `parse`. Cycle/Contract has the contract's rows; Cycle/Approval has RecordPlanOnly
-- and ExecuteApproved; Cycle/Explained is about what an answer of Execute says of what it did, and
-- Cycle/Pinned about the rows of the contract.
--
-- Loop (runLoop and what it calls of src/autonomy.go, needsPlanApproval of src/agent_init.go,
-- StopReason.errorText of src/stop_reason.go). A run is a function of what each cycle meets: whether
-- the run was cancelled, and what Decide, RecordPlanOnly and Execute answered. It leaves the task,
-- the agent, what it returns, and the decisions that it had executed. The budget is the source's own
-- bound of the cycles, so it needs no other fuel.
--
-- Graceful (src/graceful.go, isRuntimeStopRecord of src/stop_reason.go). The drain, the answer that
-- the platform polls, and which tasks a new process takes up again.
--
-- Events (src/eventgateway). Events.antt has the envelope and the adapter, Events/Log the log with its
-- two indexes, Events/Gateway Ingest. A payload is of any type.
--
-- Watcher (src/watcher, src/watch.go). Watcher.antt has the operations, Watcher/Probes the two kinds
-- of object, Watcher/Poll a background pass, which is one step here, Watcher/Door StartWatch,
-- Watcher/Loops the goroutines that make the passes, and Watcher/News what is handed to the gateway.
-- `W` is the world outside, of which a snapshot is taken. Durations are numbers of 64 bits, whose
-- wrap-around is written out.
--
-- Idle (src/llmrun/idle.go). The watchdog of a silent run, with the times at which things happen given
-- from outside.
--
-- How they meet: the loop asks Concludes of a decision, Execute asks validateDecision,
-- validatePlanLineage and validateCompletionContract, writes the plan, pins the contract, and runs
-- the steps or verifies a done; the inbox decides which message the loop works on. The watcher hands
-- what moved to the gateway; after a restart, what Graceful takes up goes through the inbox.
--
-- Texts are lists of code points. Lower case and case folding are written out for ASCII and for the
-- letters outside it that map into ASCII, which are the ones that a comparison with an ASCII word
-- can see; on other letters the model leaves a text as it is, so two lowered texts that the source
-- compares may differ here in the case of such letters. Maps are association lists. There is no fuel
-- but the budget of a run: every other loop of the source runs over a list, and an interleaving is
-- as long as it is given.
--
-- Not modelled: the planner and its prompts, the parsing of the completion contract, the task
-- record, the shutdown that waits for runs, the stores but for the tables of the inbox and of the
-- contract, the HTTP service, the backends of the language models and their generated clients, the
-- capabilities themselves, and what the runtime does with an event that the gateway took. Of the
-- inbox, the maps are taken at one agent; `current`, Stop, the outcome that a waiter is handed and
-- the callback `drained` are left out: they change neither the table nor what starts a consumer.
pub mod Base
pub mod Text
pub mod Dict
pub mod Events
pub mod Watcher
pub mod Idle
pub mod Cycle
pub mod Loop
pub mod Graceful
pub mod Decision
pub mod Plan
pub mod Inbox
pub mod Verify
pub mod Examples
