-- ===== src/Lib.antt =====
-- RootAgent: a chat service whose agent answers by writing and running Python code.
--
-- A request comes to `ChatRunService.execute` (backend/app/services/chat_run_service.py). It looks
-- the request up, counts it against a rate limit, takes the lock of its session, commits a row for
-- the run, and lets the agent (backend/app/agent/agent.py) stream steps, which are stored and sent
-- to the client. A final answer is stored and committed; in the end the workspace, the executor
-- and the lock are given back. Locks, tickets, rate limits and the messages of a session are in
-- Redis (backend/app/services/redis_store.py). Accounts log in against the infra hub or locally
-- and are changed by administrators (backend/app/routers/auth.py, backend/app/routers/admin.py).
--
-- Common: names from the library, lists, texts as lists of code points, and results.
-- Redis: the store. Redis/Server has the server's string commands as a record of operations with
--   their documented laws, and Redis/Server/Memory a server that meets them. Redis/Lock is the lock
--   and its two Lua scripts, Redis/Ticket the WebSocket tickets, Redis/RateLimit the sliding
--   window's script, and Redis/History the stored messages and the choice of the last turns.
-- Chat: messages. Chat/Sanitizer is backend/app/services/history_sanitizer.py, and Chat/Projection
--   is backend/app/services/chat_messages.py.
-- Agent: `Agent.run` and `Agent.run_stream`, over a model and an executor that may raise.
-- Run: `ChatRunService`. Run/Model has the state: the session's view of the tables, what is
--   durable, the locks, the history, the workspaces, and what was sent. Every call that leaves the
--   service has a place of type `Call`, at which a parameter `raises` says whether it raises and
--   what: an `Exception`, or a cancellation, which no `except` of the service catches. A row's
--   attributes are read from such a place too where the row may have expired, as it does with a
--   rollback. Run/Replay is `_existing_result` and `get_run`, Run/Session the first half of `execute`,
--   Run/Body its `try` block, and Run/Execute its handlers, its `finally` and the whole.
-- Artifacts: the files of a chat. Artifacts/Gateway is `ChatArtifactGateway` of
--   backend/app/services/artifact_gateway.py, through which the agent's code lists, reads, saves and
--   deletes files: its catalog, the counter of bytes and the output directory are the state.
--   Artifacts/Gateway/Saving, Deletion and Reading have the operations, and Calls and Runs any
--   sequence of them. Artifacts/Outputs is backend/app/services/generated_outputs.py, which stores the
--   files of a run when it ends: a loop over outputs on the variables of the function, in which each
--   upload, deletion, the commit and the reading after it may fail, with the handler in Artifacts/Outputs/Persist. Before it,
--   Artifacts/Outputs/Collect finds and validates the files. Artifacts/Uploads is the reading of a
--   user's upload and the cleaning of file names in backend/app/services/file_validation.py, and
--   Artifacts/Uploads/Workbook the policy for the archive of a workbook.
-- Cleanup: backend/app/services/cleanup_service.py, the worker that wipes what is left outside the
--   database, one job at a time.
-- Sessions: what a session owns outside and inside the database. Sessions.antt has the state (rows,
--   objects, history keys, workspaces), the failures, and backend/app/services/storage.py;
--   Sessions/Service is backend/app/services/session_service.py, and Sessions/Artifacts is
--   backend/app/services/artifact_service.py. Sessions/Keys is about the keys of objects and their
--   prefixes, Deletion, Isolation, Single, Erased and Orphans about single operations, and Calls about any
--   sequence of them. Sessions/View has the files of chats as a map from names to contents, and
--   Sessions/Refine compares creating an artifact with adding to it. Sessions/Routes is
--   backend/app/routers/artifacts.py. Sessions/Pending is the deletion of sessions under their locks,
--   in backend/app/routers/chat.py and backend/scripts/cleanup_worker.py.
-- Config: the validators of backend/app/core/config.py, on settings as a record. Config/Safe says
--   what settings for production have to be, and Config/Accepted compares the validators with that.
-- Accounts: `User`, the guards of backend/app/core/dependencies.py, the administrators' handlers,
--   registration (whose email the schema converts), profile and password, and backend/app/services/auth_login.py.
--   Accounts/ClientIp is the address that the rate limit of these routes counts by.
-- Tests: the theorems at concrete inputs.
--
-- Integers of the program are natural numbers: they count, measure or stand for UUIDs, and Python's
-- do not overflow. Subtraction is written out where it could go below 0. Loops are recursion on
-- the list or on the rounds that are left: the agent makes 15 rounds, as its `max_steps` says, and
-- the search for the first user message in Redis/History makes as many as there are messages, which
-- is enough as each round moves on by one. Reading a file in chunks has its length as fuel: a chunk
-- holds a byte at least. Reading an upload has one more.
--
-- What is not in the repository is a parameter: Redis, the JSON and pydantic codecs, the language
-- model, the executor, hashing, random tokens and UUIDs, Python's `str` and `int` of numbers, the
-- object storage, Unicode's tables, ZIP archives, URLs and networks, and pandas. So are the encoding
-- of an artifact's data (`_serialize`) and the validators of texts and images. A failed upload
-- stores nothing, a commit or a call of Redis that fails changes nothing, outside of Run a
-- rollback does not raise and no task is cancelled, and in Run none is during the delivery of an
-- event. Not modelled are the heartbeat that renews a run's lock while the agent works (it is
-- another task; Redis/Lock/Exclusion has its steps), the executor's containers, and the other
-- routes of chats with the WebSocket. backend/app/utils/local_python_executor.py is a copy of
-- another project's interpreter.
pub mod Common
pub mod Redis
pub mod Chat
pub mod Agent
pub mod Run
pub mod Artifacts
pub mod Cleanup
pub mod Sessions
pub mod Config
pub mod Accounts
pub mod Tests
