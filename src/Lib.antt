-- ===== src/Lib.antt =====
-- A verification library for EvidenceClass Agent, a system that turns classroom media into traceable
-- observations and reports. An API and a worker drive jobs through lifecycles kept in a database; a
-- worker runs an Agent graph under budgets, and calls models through a gateway with retries, a
-- circuit breaker and a rate limiter; an admission guard bounds the work in flight.
--
-- Each file opens with the code that it models, and keeps its words in this library's spelling:
-- Lifecycle      packages/agent_runtime/state_machines.py
-- Budget         packages/agent_runtime/budget.py
-- Admission      apps/worker/admission.py
-- Resilience     packages/model_gateway/resilience.py and errors.py
-- Agent          packages/agent_runtime/graph.py, planner.py, checkpoint.py and state.py
-- Review         packages/agent_runtime/review.py
-- Tools          packages/agent_runtime/tools.py
-- Verifier       packages/agent_runtime/verifier.py
-- Persistence    packages/persistence/idempotency.py, jobs.py, outbox.py, events.py and
--                models.py
-- Worker         apps/worker/runtime.py: claims, ends and resumptions of runs
-- Lifespan       histories of the job service and the worker over one database; the events of one row
--                that apply_job_event and apply_run_event write are part of them where they leave the
--                slots of the jobs as they are, or end a run and then its job, as the calls of
--                packages/model_gateway/acceptance_harness.py do
-- Storage        packages/object_storage/service.py and store.py
-- Segments       packages/media_pipeline/segments.py
-- Retrieval      packages/retrieval/contracts.py, registry.py, parsing.py (the chunker), ingestion.py,
--                service.py, stores.py and citations.py
-- Stream         apps/api/sse.py over Persistence, woken by apps/api/event_bus.py
-- Base           shared tests, lists, dictionaries and signed arguments
--
-- Conventions. A method of an object is a function from its record to the new record, beside what it
-- returns or raises. Clocks are not modelled: each call takes the readings that the code takes, as
-- numbers of ticks, and theorems that need it say that readings never go back. Amounts of money are
-- counted in a fixed unit. Locks make each call one step, so histories are lists of calls. What a
-- provider answers is given by a function. Texts of messages are left out where a code stands beside
-- them.
--
-- Fuel. The loop of the executor takes one unit a turn, and gets one more than the retries and repairs
-- of its policy; a loop of the graph takes one unit a turn, and gets one more than the steps of its
-- budget. Theorems below say that both then end.
--
-- Databases. A table is the list of its rows with their identifiers, and a transaction of a service is a
-- function that commits a database or raises. Identifiers and times are drawn by the caller. Where two
-- transactions interleave, the statements that a theorem needs apart are steps of their own, or take
-- the database that an earlier query has read.
--
-- The stream of events reads pages of at most 100 rows, the default of list_after; what happens around it
-- is a list of moments: an append, a wake-up, a heartbeat or a disconnection.
--
-- Texts. What packages/retrieval computes with floats, with re and with hashlib is taken as arguments:
-- an embedding and a score are numbers that stand for the floats, and the tokens of a text, its slices
-- and its digest are functions, of which a theorem says what it relies on. The similarity of two vectors
-- is a function that may raise, as cosine_similarity does for different dimensions; so is a reranker.
--
-- Not modelled: the rest of the API, the persisted checkpoints and reviews, the SQL side and the file parser of
-- retrieval, the rest of the media pipeline and the evidence engine, which these parts call or are
-- called by. Model adapters, telemetry and the evaluation scripts are input and output around them.
pub mod Base
pub mod Lifecycle
pub mod Budget
pub mod Admission
pub mod Review
pub mod Persistence
pub mod Worker
pub mod Lifespan
pub mod Storage
pub mod Segments
pub mod Retrieval
pub mod Stream
pub mod Tools
pub mod Verifier
pub mod Resilience
pub mod Agent
