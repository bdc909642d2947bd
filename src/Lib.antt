-- ===== src/Lib.antt =====
-- Jobilee: a job-application tracker made of a gateway and services behind it.
--
-- The browser calls services/gateway, which tags a request, strips any inbound `x-user-id`, verifies
-- the bearer token, limits the rate, and proxies to the service that owns the path. The services trust
-- that header. services/jobs-service keeps the pipeline of jobs, their stage history and their
-- artifacts; services/ai-service queues and runs generations, counts them against a daily quota, and
-- delivers the results to jobs-service and resume-service.
--
-- Files and the code they model:
--   Prelude, Prelude/*: shared lists, texts and tests over native numbers; no code of its own.
--   Prelude/Text/Split, Prelude/Text/Lines: splitting a text at a separator, and lines.
--   Effect, Effect/Rules, Effect/Meets: asynchronous code that may throw, as functions of a world,
--     with the rules for postconditions.
--   Thrown: what the services throw (packages/service-kit/src/errors.ts,
--     packages/http-client/src/errors.ts, class `ApiError` of the browser's client, and the
--     libraries' errors that the source tells apart).
--   Redis: what INCR promises.
--   Shared/*: packages/shared-types/src (common.ts, jobs.ts, ai.ts, auth.ts, resume.ts).
--   Gateway/Headers: an Express header object. Gateway/Config, Gateway/Routes:
--     services/gateway/src/config.ts and routes.ts. Gateway/Identity: middleware/identity.ts
--     (`requestIdMiddleware`, `stripInboundUserId`, `authenticate`). Gateway/RateLimit:
--     middleware/rate-limit.ts (`rateLimit`, `clientIp`). Gateway/Pipeline: middleware/proxy.ts and
--     the order of main.ts, with Gateway/Pipeline/Security and Gateway/Pipeline/Routing;
--     Gateway/Pipeline/PlainPath has the paths that the proxy library's laws speak of.
--     Gateway/Metrics: middleware/observability.ts (`Metrics`), with
--     Gateway/Metrics/Labels (`routeLabel`), Gateway/Metrics/Traffic (the listeners of
--     `createAccessLog`) and the proof in Gateway/Metrics/Accounts. Gateway/Health:
--     health/health.controller.ts. The other proofs stand in the child modules.
--   Jobs/Db: the queries of Prisma that jobs-service makes, a parameter with documented laws.
--     Jobs/Service: services/jobs-service/src/jobs/jobs.service.ts, a function per method.
--     Jobs/Calls: jobs.controller.ts, and what each method does to the tables. Jobs/Changes,
--     Jobs/History, Jobs/Tenancy: the abstract transition relation and its invariants.
--   ServiceKit/ErrorFilter: packages/service-kit/src/errors.ts. ServiceKit/UserId:
--     user-id.decorator.ts. ServiceKit/ZodPipe: zod.pipe.ts. ServiceKit/Env: env.ts.
--     ServiceKit/Readiness: health/health.controller.ts of the four services. Logger:
--     packages/logger/src/index.ts (`emit`), with Logger/Levels, Logger/Sanitizer (`sanitize`) and the
--     proof in Logger/Redaction.
--   HttpClient: packages/http-client/src/client.ts (`request`), HttpClient/Errors: errors.ts, with
--     the proofs in HttpClient/Bounds. HttpClient/Client: what a request sends (`contextHeaders`,
--     `buildUrl`, `createHttpClient`). HttpClient/Services: services.ts, the typed clients, with
--     HttpClient/Services/Identity.
--   Auth/Tokens, Auth/Service: services/auth-service/src/auth/tokens.service.ts and
--     auth.service.ts; Auth/Controller: auth.controller.ts; Auth/Sessions relates the sessions to the
--     gateway and to the next login.
--   Shared/Resume, Resume/Files: services/resume-service/src/files/files.service.ts; what is relied on
--     of its database and its storage stands in Resume/Files/Storage, the proofs in
--     Resume/Files/Sound. Resume/Versions: resume/resume.service.ts (`createTailored`), its proof in
--     Resume/Versions/Sequence. Resume/Base: `getBase`, `putBase`, `listTailored`. Resume/Objects:
--     storage/storage.service.ts. Resume/Controller: resume/resume.controller.ts, with the proof over
--     any history of requests in Resume/Controller/History.
--   Web/Tokens, Web/Client: apps/web/src/api/tokens.ts and client.ts (`apiFetch`,
--     `refreshAccessToken`), with Web/Client/Bounds; Web/Client/Flight has the
--     callers that refresh at once (`refreshInFlight`). Web/Sse: sse.ts (`streamEvents`,
--     `parseEvent`), with Web/Sse/Chunks and, against what ai-service writes, Web/Sse/Frames.
--     Web/Generation: ai.ts (`awaitViaStream`, `awaitViaPolling`, `run` of `useGeneration`), with
--     Web/Generation/Polling, Outcomes and Streamed. Web/Requests: `createTask`, `getTask` and the
--     request of `streamEvents`, over which Web/Generation/Browser fills the hook's parameters.
--     Web/Session: apps/web/src/auth/AuthProvider.tsx.
--   Web/Board: apps/web/src/routes/Board.tsx, with Web/Board/Columns. Web/Queries: api/jobs.ts and
--     api/resume.ts, with Web/Queries/Refetch and, against the gateway, Web/Queries/Routing.
--   Web/Pages: the state of each page and what its buttons do: JobDetail, Settings and, for the text
--     fields of both, Editor; SignIn (routes/AuthForm.tsx and auth/ProtectedRoute.tsx) and Gate; AddJob,
--     Files and Panel (components/AddJobForm.tsx, FileList.tsx and GenerationPanel.tsx); Versions
--     (components/Artifacts.tsx and TailoredResumes.tsx); View has what they share.
--   Ai/Quota: services/ai-service/src/quota/quota.service.ts; Ai/Quota/Counting and Ai/Quota/Budget
--     hold what Redis promises and the proofs. Ai/Prompts: generation/prompts.ts. Ai/Generation:
--     generation/generation.service.ts (`generate`, `describeFailure`), its costs in
--     Ai/Generation/Billing. Ai/Delivery: delivery/delivery.service.ts; Shared/Tailor:
--     `splitTailorResult` of packages/shared-types/src/ai.ts. Ai/Tasks: the rows, the events and the
--     record `Environment` of all that ai-service calls. Ai/Worker: queue/generation.worker.ts
--     (`process`), with Ai/Worker/Keeper (what the calls leave alone), Delivered, Attempts and
--     Settled. Ai/Service: tasks/tasks.service.ts, its charges in Ai/Service/Charges.
--     Ai/Stream: tasks/task-stream.controller.ts (`stream`), with Ai/Stream/Forwarding. Ai/Events:
--     tasks/task-events.service.ts. Ai/Controller: tasks/tasks.controller.ts.
--   Gateway/Tests, Jobs/Tests, HttpClient/Tests, Auth/Tests, ServiceKit/Tests,
--   Resume/Tests, Ai/Tests, and the other modules called Tests: concrete worlds and runs.
--
-- A world `W` is a parameter: a database, Redis or another service is a record of actions on it, with
-- the laws that its documentation gives. A middleware that calls `next` and one that ends the response
-- are the constructors of `Step`. Times are natural numbers of milliseconds, and of nanoseconds in the
-- access log. The model serves one request after another; what runs between two queries of one call is
-- not modelled, except that the theorems on counters let any other traffic come between requests, that
-- other writers of resume versions may come between the queries of `createTailored`, that the requests
-- of the access log come, finish and close in any order, and that callers of the browser's refresh run
-- at the same time.
--
-- The loops on fuel are the source's own: `request` of the HTTP client runs `max_attempts` times and
-- `run_from` takes the attempts that are left; `generate` runs at most MAX_CONTINUATIONS + 1 times,
-- and `attempt_from` takes the attempts that are left; `createTailored` takes VERSION_RETRIES turns.
-- Printing a number takes its successor as fuel, and a division by ten shortens it.
-- Polling takes MAX_POLLS turns and `sanitize` the levels that are left of its limit of 8. The loop over
-- the buffer of the event stream has the buffer's length as fuel, and each turn takes a separator off.
--
-- Not modelled: third-party code (zod, jose, argon2, Prisma, ioredis, BullMQ, the provider's SDK,
-- http-proxy-middleware), which is a parameter where it is called; the log lines that the services
-- write; CORS; configuration and start-up; what React renders and the routes of the pages. The cache
-- of React Query is a parameter. The browser's
-- storage, its timers and React's state are parameters, and so are the sockets and the decoder of the
-- event stream; the Redis channel between the worker and an event stream is the list of signals that
-- reach it.
pub mod Prelude
pub mod Shared
pub mod Thrown
pub mod Effect
pub mod Redis
pub mod Gateway
pub mod Jobs
pub mod Ai
pub mod Auth
pub mod HttpClient
pub mod Logger
pub mod Resume
pub mod ServiceKit
pub mod Web
