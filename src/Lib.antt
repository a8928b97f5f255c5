-- ===== src/Lib.antt =====
-- tramli: a model of the constrained flow engine (lang/ts) with its correctness theorems.
--
-- A flow definition is a graph of states. The engine moves a flow along it: automatic and branching
-- transitions run in a chain up to `maxChainDepth` steps, external ones wait for an event and pass a
-- guard, and a transition may hold a whole sub-flow. The user of the library supplies processors,
-- guards, branches and actions; they share the flow's context of data and may throw.
--
-- Files, and what they model:
--   Prelude          shared names; Map and Set as association lists and lists of strings (Prelude/Maps)
--   FlowError        lang/ts/src/flow-error.ts
--   Context          lang/ts/src/flow-context.ts, flow-key.ts; Aliases: data written under aliases
--   Types            lang/ts/src/types.ts
--   FlowDefinition   the class FlowDefinition of lang/ts/src/flow-definition.ts; Edges: its graph
--   FlowInstance     lang/ts/src/flow-instance.ts; Queries: statePath, missingFor, waitingFor,
--                    availableData. The graph that a definition holds stands beside it
--   FlowStore        lang/ts/src/in-memory-flow-store.ts
--   Exec             methods that mutate and throw, and the rules for what holds after them
--   Engine           lang/ts/src/flow-engine.ts: Select (selectExternalTransition), Steps (fireEnter,
--                    fireExit, verifyProduces, processAndLog), Errors (handleError), Chain
--                    (executeAutoChain, executeSubFlow), External and Resume (resumeAndExecute),
--                    SubResume (resumeSubFlow), Api (startFlow, resumeAndExecute over the store)
--   Builder          the builders of lang/ts/src/flow-definition.ts: Transitions (from), Definition
--                    (buildInternal, finalize), Checks and Distinct (checks of transitions and states),
--                    Search and Reachability (checkReachability), Terminal
--                    (checkPathToTerminal), Dag (checkDag), Requires (checkRequiresProduces), Outgoing
--                    (checkTerminalNoOutgoing), Nesting (the checks of nested sub-flows), Validation
--                    (build, buildAndValidate)
--   Availability     the walk that `traverse` of data-flow-graph.ts and `checkRequiresProducesFrom` of
--                    flow-definition.ts have in common
--   DataFlowGraph    lang/ts/src/data-flow-graph.ts: its construction; Queries, Hints, Migration, Versions
--   Pipeline         lang/ts/src/pipeline.ts: builder, validation, data flow; Execution: execute, asStep
--   EventStore       lang/ts-plugins/src/eventstore: the event log, replay, projection, compensation
--   Plugins          lang/ts-plugins/src: Resume (resume), Idempotency (idempotency), Subflow
--                    (subflow), Hierarchy (hierarchy/entry-exit-compiler.ts)
--   Samples, Tests   a small order flow, runs of it, and instances of the theorems
--
-- The user's code is a parameter: a function of the context and of a moment, a counter that each call
-- and each reading of the clock advances. So every call may answer differently and may throw. The clock
-- is a function of the moment. `undefined` is a value of the model; other values are primitives, known
-- by their printed form, or object identities (NaN is not distinguished from itself). Times and counts
-- are natural numbers. A Map is an association list in the order of insertion.
--
-- A definition of nesting depth n holds sub-flows of depth below n (SubDefinition), so the engine's
-- recursion into sub-flows is structural. The loop of executeAutoChain recurs on the steps left of
-- maxChainDepth, as the source's counter does, so no fuel is added. A flow and its sub-flows share one
-- context object, which stands beside the flow. The store holds the flow object itself: its entry shows
-- every change, also after a throw (Api.settle). Loggers are flags and a list of entries; their
-- durations are left out, and a logger is taken not to throw.
--
-- In Builder/Search the search has one round for each target in the definition and one more, which is
-- shown to be enough. A step of a pipeline sees and changes a world of any type, which stands for all
-- that lies outside. The states of a definition stand in the order in which the source lists them.
--
-- The walk of Availability takes a key from a state, or records a new one, with each visit that is not
-- dropped, so its fuel, one for each state and each key of it, is enough.
--
-- Not modelled: the fields that parseValidationError reads off the messages of errors; the generators
-- of text and the printing methods of the graph (pure output); verifyProcessor of the graph, which
-- prints the class of whatever was thrown; synthesizeBubbling of the hierarchy plugin, which looks
-- states up by name as it goes and need not end where names repeat; concurrency between calls (the source
-- assumes one call at a time for a flow); the other plugins, the other languages and the viewers.
pub mod Prelude
pub mod FlowError
pub mod Context
pub mod Types
pub mod FlowDefinition
pub mod FlowInstance
pub mod Exec
pub mod FlowStore
pub mod Engine
pub mod Samples
pub mod Tests
pub mod Pipeline
pub mod Builder
pub mod EventStore
pub mod Availability
pub mod DataFlowGraph
pub mod Plugins
