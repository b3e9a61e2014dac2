-- ===== src/Lib.antt =====
-- CtxTTL Core: lifecycle-aware context middleware for long-running LLM agents. Paths below are from
-- the root of the repository; the program is src/ctxttl/.
--
-- The parts and how they work together. A request names its session, and may name a user, a task,
-- an agent, a project and a turn (identity.py). From these come owner keys, and the context store
-- (storage/sqlite/store.py) holds events and context items under them: every change is one event,
-- written with its item and with the active projection in one transaction. Before a model is
-- called, an agent may leave out turns it has declared inactive
-- (application/transcript_lifecycle.py); then the compiler (compiler/) divides the messages into
-- units, makes candidates of the units and of the active items, and selects what fits a token
-- budget; the compilation service (application/context_compilation.py) accounts for every token.
--
-- Prelude: Boolean tests, equality, lists and sums over the native numbers, Python's `sorted`, and
--   `Result`, in which a raised exception is `err` with its class. It models no code.
-- Json: JSON values (models/context.py: JsonValue), their equality and json.dumps. Objects keep the
--   order of their keys. Floating-point numbers are left out.
-- Models: models/context.py and models/events.py. Dimensions has the enumerations, Context the
--   owner, the source and the item with their validators, Event the event.
-- Storage: storage/sqlite/. Tables is the schema, a list of rows per table with the newest first;
--   Transaction is the monad of statements, in which a failed call restores the tables and an
--   IntegrityError becomes ContextConflict; Rows are single statements with their constraints;
--   Store is apply and apply_idempotent, Queries the reads and observe_turn, Runs a history of
--   calls. Store/Consistent states what holds between calls, Store/Checks and Rows/Effects are the
--   lemmas on the statements, Store/Invariant and Store/Replay the theorems.
-- Identity: identity.py, the identity of a request and reachable_owner_keys; below it Resolution is
--   resolve_identity with its header names and pattern, on Latin-1 headers, and Reach,
--   Isolation, Resolution/Valid, Resolution/Trimmed and Resolution/Returns hold the proofs.
-- Compiler: Budget is compiler/budget.py; Units the messages and units of compiler/openai.py;
--   Rendering is compiler/rendering.py and compiler/tokenization.py; Context the candidates of
--   items; Compile is compile itself, with the query of compiler/relevance.py. Below them,
--   Budget/Selection and Budget/Weights, Units/Partition, Units/Indices, Units/Costs,
--   Units/Instructions, Context/Costs, and Compile/Run, Kept, Accounts, Lossless, Estimated,
--   Returns, Output and Instructions hold the proofs.
-- Observability: the exclusion and the token ledger of observability/models.py.
-- Application: ContextCompilation is the token ledger and the output reserve of
--   application/context_compilation.py, TranscriptLifecycle the filter of
--   application/transcript_lifecycle.py.
--   The services over the store: Service is how they run, a state of the store and of the stamps
--   that uuid4 and utc_now have given, where an exception ends a method but undoes no earlier call;
--   ContextState is application/context_state.py, ContextManagement is
--   application/context_management.py, StructuredIngestion is application/structured_ingestion.py,
--   ResponsesProtocol is application/responses_protocol.py, ChatCapture is
--   application/chat_capture.py, ProviderCapture is application/provider_capture.py, and Requests
--   are sequences of calls of the services, as the handlers of api/app.py make them. Service/Keeps,
--   and the Keeps modules below the services, carry what the store keeps over to the services;
--   Service/Ensures states what a call has made sure of, which Storage/Store/Expiry and
--   ContextManagement/Expiry, Fresh, Missed and Listed use for expiries. Storage/Store/Steps, Stored,
--   Targets, Frame, Ended and Logged are what one event keeps.
--
-- A state is a record of lists, and an operation a function from the old state to a result and the
-- new state. The lock of the store and BEGIN IMMEDIATE make each call one step, so that a history of
-- calls is a list of steps. Every loop is by recursion on a list; only the printing of a number has
-- fuel, which is one more than the number where each round divides by ten.
--
-- Numbers: a datetime is its microseconds in UTC; a float of [0, 1] is its millionths; a utility is
-- twice its hundred millionths: for an item rounded as round(x, 8) does, and for a unit, whose utility
-- the program does not round, the odd number between two of these where it lies between them, which
-- keeps the order of fewer than 40 million units and of the items; the program's own floats have
-- rounding errors. An owner key is the list of coordinates that json.dumps prints. The id
-- `message:n` of a unit is the number n.
--
-- Parameters, since the program takes them as replaceable parts: the token estimator, the relevance
-- scorer and the renderer of an item. The default estimator and renderer are modelled as well. The
-- services take the stamps of uuid4 and utc_now, and the SHA-256 fingerprint of a request; the
-- capture of responses takes json.loads, and a stream as the texts of its data blocks.
--
-- Not modelled: the conversation archive with its full-text search, the division of a stream's
-- bytes into blocks, traces, the evaluation and benchmark tools; and, as mere input and output, the
-- HTTP interface, the provider client, configuration and migrations.
mod Prelude
pub mod Json
pub mod Models
pub mod Storage
pub mod Identity
pub mod Compiler
pub mod Observability
pub mod Application
