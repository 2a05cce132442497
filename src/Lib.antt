-- ===== src/Lib.antt =====
-- GLADyS: the orchestrator, the Executive, the memory service and the Python sensor SDK.
--
-- The orchestrator (src/services/orchestrator/gladys_orchestrator) takes events from sensors,
-- attaches salience and a heuristic match, queues them by salience for the Executive, and learns
-- from explicit and implicit feedback. This library models the modules below, one definition for
-- one method, with the proofs in child modules.
--
-- Prelude: shared names; dictionaries in insertion order (Prelude/Dict), `a.lower() in b.lower()`
--   over character codes (Prelude/Text), lists with native lengths (Prelude/Lists),
--   integers (Prelude/Ints), the floats of times (Prelude/Floats) and Python's stable sort
--   (Prelude/Sorting).
-- Event: the event and its salience, as far as the orchestrator reads them.
-- Registry (registry.py): components, the index by type, pending commands.
-- EventQueue (event_queue.py): the priority queue, `_process_event` (EventQueue/Process),
--   the timeout scanner (EventQueue/Timeout), and the interleavings of the sensors, the worker and
--   the scanner as lists of moves (EventQueue/System).
-- Skills (skill_registry.py): skill manifests and the index of capabilities.
-- Outcome: what a call to other code comes back with.
-- MemoryClient (clients/memory_client.py): the calls to the memory service; each method of the
--   learning modules returns the calls that it makes, in order.
-- Watcher (outcome_watcher.py): expectations of what follows a fire, their resolution by events
--   and their timeouts.
-- Learning (learning.py): the strategy that reads feedback as signals (Learning/Strategy), and the
--   facade that the router calls; it holds a Watcher.
-- Router (router.py): the subscribers and what is broadcast to them; the salience of an event
--   (Router/Salience) and route_event (Router/Route), which reads memory, reports to Learning and
--   hands the event on for the queue with its suggestion and candidates.
-- Server (server.py): the servicer that holds the router, the queue and the registry: PublishEvent,
--   StreamEvents, the subscriptions, Heartbeat, ResolveComponent and the reports on the queue.
--
-- The Executive (src/services/executive/gladys_executive/server.py). The queue's worker calls it.
-- Json: JSON values and texts, with the parser as a parameter.
-- Executive: the candidates, contexts, traces and results of HeuristicFirstStrategy. Its parts:
--   Executive/Traces (the store of reasoning traces), Executive/Decide (decide: heuristic, language
--   model or rejection), Executive/Endorse (which candidates the model's answer endorses),
--   Executive/Clients (the calls to the memory service and the salience gateway), Executive/Feedback
--   (ProvideFeedback and the quality gate), Executive/Process (ProcessEvent).
--
-- The memory service (src/services/memory/gladys_memory).
-- Memory (storage.py): the tables of heuristics and fires as dictionaries; Memory/Fires and
--   Memory/Heuristics are the methods, one for one. A confidence is a quotient of two numbers.
-- Memory/Graph (storage.py, with the constraints of src/db/schema.sql): entities and relationships;
--   Memory/Expand is the breadth-first search expand_context over them.
-- Memory/Episodes (storage.py): the episodic events, their storing, deletion and query by time.
-- Memory/Events, Memory/Service (grpc_server.py): the messages, and the calls on heuristics.
--
-- The SDK for sensors (sdk/python/gladys-sensor-sdk/src/gladys_sensor_sdk):
-- FlowControl (flow_control.py): the strategies; the token bucket is FlowControl/RateLimit.
-- Dispatch (events.py): EventDispatcher; the choice of what a batch sends is Dispatch/Batch.
-- Commands (dispatcher.py, state.py): lifecycle commands, their handlers and states.
-- Commands/Args (args.py): the typed arguments. Commands/Lifecycle (lifecycle.py, heartbeat.py):
--   the managers, with each round of a task as a function; Commands/Reports has their proofs.
--
-- Conventions. Scores (salience, threat, confidence) are floats of the program; the modelled code
-- compares them and tests them against zero, and here they are numbers in units of 10^-6, not
-- negative. Times are milliseconds or seconds since the epoch, arguments of the functions that
-- read the clock. Texts are native strings; `lower` is Python's on ASCII. A list that `heapq`
-- manages is kept in the order of its pops, which is what heappush and heappop promise. Callbacks
-- and clients of other services are parameters: functions that return or raise. Logging is left
-- out. A token bucket counts exact parts of a token where the program has floats, and a priority,
-- which is only compared, is a natural number. The parsers of JSON and YAML are parameters, or
-- their results are. A language model is a function from its request to an answer or none. No loop
-- takes fuel: each is recursion over a list.
--
-- Not modelled: the generated stubs, what PostgreSQL searches (embeddings, full text, names),
-- the HTTP calls to the language model, health calls,
-- start-up, the salience gateway (Rust), the dashboard, the command line tools, and the starting
-- and cancelling of asyncio tasks.
pub mod Prelude
pub mod Registry
pub mod Skills
pub mod Event
pub mod Json
pub mod Memory
pub mod Executive
pub mod EventQueue
pub mod Outcome
pub mod MemoryClient
pub mod Watcher
pub mod Learning
pub mod Router
pub mod Server
pub mod FlowControl
pub mod Dispatch
pub mod Commands
