-- ===== src/Lib.antt =====
-- A model of Incident Guard (incident_guard/), a runtime that drives an agent through the investigation
-- of an incident, with theorems about its durable core.
--
-- How the parts fit. A run is a sequence of durable events. The event store
-- (incident_guard/events/event_store.py) appends batches of events to a table and replays them; the
-- projector (incident_guard/events/projection.py) folds a replayed history into the state of the run:
-- status, messages, tool calls, steps and inbox. Run models (incident_guard/agents/run_models.py) hold
-- the table of statuses and the turns of a run; the goal gate (incident_guard/agents/goal_gate.py)
-- decides whether an incident may be closed. The tool pipeline
-- (incident_guard/agents/tool_pipeline.py) runs the tool calls of a step: it validates a call, asks the
-- policy and, where one is needed, for an approval, and turns every failure into an observation.
--
-- Which file models what.
-- - Prelude and its children: library names, Boolean tests, lists, texts, exceptions as `Result`, a
--   dict as an association list in insertion order.
-- - Json, Json/Canonical, Json/Equality: JSON values with their equality, and
--   `json.loads(json.dumps(x, sort_keys=True))` of `_copy_payload` as the canonical form of a value.
-- - Agents/Provider, Agents/RunModels, Agents/GoalGate: the modules of incident_guard/agents with
--   these names. `__post_init__` is a function into `Result`; since field types are static, only its
--   checks on values remain.
-- - Agents/Tools and its children: incident_guard/agents/tool_pipeline.py. Agents/Tools has its values
--   and `ToolRegistry`, Agents/Tools/Actions the state of `RegistryToolExecutor`, Agents/Tools/Execution
--   and Agents/Tools/Calls its methods, as functions from the state to an attempt and a state. An
--   exception is a `ToolExecutionFailure`, another `Exception`, or a `BaseException` that is neither,
--   such as a cancellation: the last passes through the handlers of exceptions.
-- - Agents/Effects: exceptions and state of coroutines. Agents/React, Agents/React/Rounds:
--   `StructuredAgentRuntime` of incident_guard/agents/react_runtime.py; the `for` is recursion on the
--   rounds left, and the exception of `asyncio.timeout` is one that any awaited call may raise.
-- - Agents/Runtime and its children: `EventDrivenAgentRuntime` of incident_guard/agents/event_runtime.py.
--   Log appends events and ends a run, Approvals reads and records decisions, Serialization and Steps
--   persist the answer of the provider and ask for its tools, Calls executes them
--   (`_execute_current_tools`), Drive is the `while True` of `_drive` on fuel, Entry has `run`, `resume`
--   and `cancel`. Its state is the event store with the number of ids drawn; every awaited call may
--   also change the store, since an operator may act while the runtime waits.
-- - Events/Store: `SQLiteEventStore`. A row is the event it stores, with its JSON text seen as the
--   value that the text encodes; the constraints of the schema and the transaction with its rollback
--   are written out, with `length` of SQLite, which stops at a NUL, and its integers of 64 bits.
-- - Events/Kinds, Events/Payload, Events/Projected, Events/Locals, Events/Handlers, Events/Projection:
--   `RunEventProjector`. The local variables of `project` are a record, each branch on the type of an
--   event is a handler over it, and `project` is the fold.
-- - Events/Inbox: `DurableRunInbox`; of each method the part that reads is a plan, which the other part
--   appends.
-- - Context/Snapshot: the token estimate and `ContextSnapshot` of
--   incident_guard/context/context_engine.py; Context/Messages: the messages of a run as JSON objects
--   and `_select_pins`; Context/Groups, Context/Policy: the groups of messages that stay together,
--   `EventContextProjector` and `ContextBudgetPolicy`.
-- - Context/Incident and its children: `IncidentStateProjector` of
--   incident_guard/context/incident_state.py; Handlers has the branches on the type of an event, Fold
--   the loop of `project`.
-- - Context/Artifacts: `FileToolResultStore` of incident_guard/context/artifact_store.py; the files are a
--   dict from resolved paths to bytes, and a write is the list of its steps (the temporary file is
--   created and filled, then renamed). An argument says what the temporary file holds on the way, and
--   after which step an exception comes, if one does. Context/Artifacts/Writes is about these steps.
-- - Tests and its children: runs at concrete inputs.
--
-- Conventions. An error is the exception's class with its message, in which a name in braces stands
-- for a formatted value. Python's ints that the code has checked to be positive or non-negative are
-- natural numbers; a JSON number keeps its sign. Each loop is over a list, but the `while True` of
-- `_drive`, which is on fuel: a result of `none` says that it ran out, and the theorems about it hold
-- for every fuel. Time stamps are dyadic numbers that are only copied. Identifiers and times that the
-- program draws from `uuid4` and the clock are arguments.
--
-- Parameters. In the tool pipeline the schema library, `json.dumps`, `str` of a JSON value and
-- `asyncio.gather` are arguments; handlers, hooks, the policy and the approval provider act on an
-- abstract world and may raise any exception. So do the provider, the tools and the gate of the two
-- runtimes; those of the event-driven one may change its store as well. Of the libraries for text
-- encodings, hashes and paths the artifact store uses what a record lists, and how the writing of a
-- file goes is an argument (what the temporary file holds on the way, and where the writing breaks).
--
-- Not modelled: the broker of live events, which the runtime only calls; providers over HTTP, the MCP
-- server, command lines, the web console, the Docker lab, session and trace files, which are input and
-- output; the evaluation reports; locks and threads, since every operation of the store holds its lock
-- from start to end.
pub mod Prelude
pub mod Json
pub mod Agents
pub mod Events
pub mod Context
pub mod Tests
