-- ===== src/Lib.antt =====
-- A verification library for rs-llmctl, a server that runs language models behind an
-- OpenAI-compatible API.
--
-- The parts modelled, and how they meet. A request is authenticated (src/server/auth.rs), passes
-- the quota check (src/quota.rs), takes a global and scoped permits (src/server/traffic.rs), is
-- routed to a model (src/server/routing.rs), and goes to an upstream if its circuit breaker allows
-- it, or to the in-process engine through the scheduler (src/native/scheduler.rs). A worker process
-- is planned (src/worker/plan.rs), started, drained, stopped and swapped by the supervisor
-- (src/worker/mod.rs, src/worker/swap.rs), which tells the request path through an admission gate
-- (src/worker/admission.rs) whether it may be used.
--
-- Base: tests on numbers and texts, lists, `BTreeMap` as an ordered association list with its laws
--   (Base/Map), the stable sort (Base/Sort), tokio's semaphore as an interface (Base/Semaphore),
--   methods of `str` (Base/Texts), the search for an empty line (Base/Frames) and JSON values
--   (Base/Json).
-- Config: the fields of src/config that the models read.
-- Traffic/Admission, Traffic/Breaker, Traffic/AuthFailures: the three types of
--   src/server/traffic.rs. A call is one step; the acquisitions of several threads, which take the
--   map's lock once for each scope, do not interleave inside one.
-- Worker/Gate: src/worker/admission.rs, each atomic operation a step of a thread.
-- Worker/Status, Worker/Supervisor: src/worker/mod.rs over the trait `WorkerRunner`.
-- Worker/Runner: src/worker/runner.rs, which fills that trait with processes; tokio's processes and
--   reqwest's requests are the record `Processes`.
-- Worker/Swap: src/worker/swap.rs. Worker/Launch, Worker/Plan: src/worker/plan.rs.
-- Quota/Rows: the rows that quotas count (src/storage/decisions.rs, src/storage/usage.rs).
-- Quota: `check_quota` of src/quota.rs. Quota/Admission: `admit_request` and concurrent admissions,
--   each two steps under the lock of a scope. Quota/Summary: `summarize_quota_policies`.
-- Server/Routing: src/server/routing.rs, over the placement of src/native/placement.rs
--   (Native/Placement). Server/Bodies: the rewriting of a forwarded body there.
-- Server/Sse: src/server/sse.rs, and the loop of src/server/chat_stream.rs that feeds its parser.
-- Server/Auth: authentication in src/server/auth.rs, over Traffic/AuthFailures. Server/Sources: the
--   client's address behind trusted proxies, in the same file.
-- Server/Dispatch: src/server/chat_dispatch.rs, over Traffic/Breaker and Server/Bodies.
-- Server/Scopes: the scopes of a request's permits (src/server/chat.rs).
-- Guardrails: src/guardrails.rs. Security: src/security.rs, over Server/Auth and Server/Sources.
-- Native/Scheduler: src/native/scheduler.rs, each operation on shared state a step of a thread.
--
-- Each file with definitions has the proofs in its children, and runs and instances in Examples.
-- Times are numbers (milliseconds or nanoseconds) and each operation takes the time as an argument.
-- Machine integers are natural numbers with their saturation or wrap-around written out; where a
-- theorem needs that a counter does not wrap, it says that there are fewer than 2^64 threads. Loops
-- go over lists, and waits over the list of what is observed. Only the loop of the usage parser takes
-- fuel, one more than the number of characters in its buffer, since each frame takes two of them.
--
-- Not modelled: inference (src/native, but the scheduler and the placement), SQL, HTTP,
-- serialisation (reading and writing JSON are parameters), the command line, telemetry formats and
-- the probes of the host. Poisoned locks are not modelled. The methods of the supervisor run one at
-- a time, and what requests read while a start waits for the runner is given by the two states in
-- between (Worker/Supervisor/Gates). Paths are compared as texts.
pub mod Base
pub mod Config
pub mod Traffic
pub mod Worker
pub mod Quota
pub mod Guardrails
pub mod Native
pub mod Server
pub mod Security
