-- ===== src/Lib.antt =====
-- A verification library for engineering-memory-agent, a service that turns engineering events and
-- conversations into memories in a PostgreSQL database, finds contradictions between them and has
-- people decide them, behind a rate limit and circuit breakers.
--
-- The parts and their files:
--   Memory        backend/service/memory.py. `Memory/Row` and `Memory/Values` are the rows of the table
--                 `memories` and the merging of their JSON values; `Memory/Table` the SQL statements;
--                 `Memory/Act` the shape of a service call, which changes the database and returns or
--                 raises; `Memory/Write` is `write_memory` with its helpers, `Memory/Resolve` is
--                 `resolve_conflict` with `_write_resolved_memory`. The other files of the folder are proofs.
--   Conflicts     backend/service/conflicts.py: the queue of conflicts that wait for a decision, which calls
--                 `resolve_conflict`. `Conflicts/Queue` is the table `pending_conflicts` with the two
--                 partial unique indexes of migrations/versions/0001_baseline.py, `Conflicts/Patrol` the
--                 loading of a pair of memories that a patrol found to contradict each other,
--                 `Conflicts/Service` the operations.
--   Breaker       backend/shared/resilience.py: the circuit breaker, its registry, the four wrappers;
--                 `Breaker/Outage` runs wrapped calls one after another.
--   RateLimit     backend/api/ratelimit.py: buckets, their table, the middleware.
--   Slots         backend/shared/slots.py.
--   Chunk         backend/service/ingestion/chunk.py: `Chunk/Hard` cuts into fixed sizes, `Chunk/Prose` is
--                 `chunk_text`, `Chunk/Code` is `chunk_code`.
--   Window        backend/agent/nodes.py, what of a conversation is sent to the model: `Window/Tail` is
--                 `_window_messages` and `_split_overflow`, `Window/Compact` is `_maybe_compact` and
--                 `_merge_system_messages`.
--   Agent         backend/agent. `Agent/Message` is the state's messages, `Agent/Envelope` is
--                 tool_envelope.py, `Agent/Serial` is `_messages_to_dicts`, `Agent/Turn` the searches of
--                 the current turn, and `Agent/Llm`, `Agent/Approval`, `Agent/Conflict` and `Agent/Final`
--                 are the nodes of nodes.py, `Agent/AutoMemory` the automatic capture; `Agent/Graph` composes them as graph.py does. `Agent/Reducer`
--                 is a concrete merging of messages for the runs. The human's
--                 answer to an interrupt is an argument, and a Command is a value.
--   Retrieval     backend/service/retrieval/retrieval.py: `Retrieval/Cache` is `embed_query` and its cache, where
--                 each use of its lock is a step and what others do in between is an argument, and
--                 `Retrieval/Fusion` the fusion of `retrieve_hybrid`, where the two searches' rows are
--                 arguments and scores are exact fractions.
--   Usage         backend/service/usage.py, of which the buffer of observations and its flush.
--   Providers     `Providers/Failover` is the failover of backend/service/llm_service.py and of
--                 backend/service/embedding_service.py, `Providers/Switch` runs it over the primary's circuit
--                 breaker, `Providers/Structured` is backend/service/structured.py.
--   Events        backend/runner/event_analysis.py, of which `_cooldown_gate`.
--   Common        shared names, dicts as association lists, `str.strip`.
--
-- Correspondence. Python names are kept without their leading underscore. A statement that the database
-- runs is a function on the list of rows; a transaction is one step, whose effect is dropped where it
-- raises. Between two awaits other requests may commit: `Others` holds one arbitrary change of the
-- database for each place where the code waits, and `quiet` is the case in which nothing else
-- commits. What is read once per call (settings, clock, a new id) is an argument. Parameters stand for
-- the language and embedding models, SHA-256, the vector distance, Python's UUID, lower, `re.split` and
-- `ast`, tenacity, json, and langgraph.
--
-- Numbers. Similarities are millionths. Tokens of a bucket are counted in units of one token divided by the
-- ticks of its window, so that refills are exact where the source rounds floats. Times are ticks of the
-- monotonic clock. `pieces` of Chunk/Hard runs on as much fuel as the text is long, which is enough since
-- each piece takes a character. `turn` of Agent/Graph runs on fuel for its rounds, and `max_steps` is enough.
--
-- Not modelled: the agent's tools and the payloads and tokens that it shows, the searches and rerankers of retrieval, extraction, usage summaries, the calls of the models, the
-- run of an event analysis and of a patrol, the HTTP routes and the connectors, which this library leaves for later or which only call
-- libraries and services; in the modelled files, timestamps and recall counters, log lines, the text
-- forms of JSON columns, and the body of error responses.

pub mod Common
pub mod Slots
pub mod Agent
pub mod Breaker
pub mod RateLimit
pub mod Retrieval
pub mod Usage
pub mod Events
pub mod Providers
pub mod Memory
pub mod Conflicts
pub mod Chunk
pub mod Window
