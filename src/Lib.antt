-- ===== src/Lib.antt =====
-- QuanTime runs trading engines that teams submit under load and scores them. This library models
-- the parts of it that decide what a score means.
--
-- Parts and files:
--   Prelude      numbers, Boolean tests, lists and maps that the other files share.
--   Go           `sort.Search`, `sort.SliceStable` and buffered channels, with their laws.
--   Market       the abstract view of one side of a book: taking from it (Sweep) and resting in it
--                (Place).
--   Engine       examples/sample-engine-go/main.go. Types has the structs, Book the methods of `book`
--                and the tests that read it, Match has `match`, Submit has `submit`. The proofs:
--                Levels (the binary search), Takes and Refines (matching is a sweep), Order (a side stays
--                sorted), Shrinks, Invariant and Uncrossed (every request keeps the book sound),
--                Rests (time priority of resting), Fok (fill-or-kill orders). Server has `main`: the HTTP
--                handlers, the channel of jobs and the engine's goroutine as steps; Serial is its proof.
--   Oracle       services/gateway/internal/validator/validator.go. Types and Book have the reference
--                book with `apply`, Scenario the fixed orders, Validate the replay. The proofs:
--                Identity (objects told apart by `seq`), Refines, Order, WellFormed and
--                Invariant, Fills.
--   Conformance  the engine against the reference book: Views (one side of each, as the same list),
--                Trades and Submits.
--   Gateway      services/gateway/internal/store/store.go and services/gateway/internal/api/handlers.go:
--                Store has the tables' statements, Submissions `createSubmission`, Deploys
--                `buildAndDeploy`, Reuploads the two together, Runs `startRun`, Baselines
--                `setBaseline`, Results the statements on results, Regressions `getRegression`,
--                Leaderboards `getLeaderboard` and `getLeaderboardSummary`; Promotions and ReleaseGate have
--                the proofs on baselines. Queries has the queries of the leaderboard and the judge console,
--                with the proof in Rankings, Judge the handlers that read, and `resetPlatform`. Streams has
--                `streamRun` (services/gateway/internal/api/ws.go) with `SubscribeRun`
--                (services/gateway/internal/cache/cache.go). Routes has `NewRouter`, with
--                the proof in Dispatch, and Middleware `WithMiddleware`, with the proof in Answered
--                (services/gateway/internal/api/router.go; the analyzer's middleware is there too).
--                Summaries has the subscription to run summaries (services/gateway/cmd/main.go), Connects
--                the three `Connect` (store.go, cache.go and services/gateway/internal/bus/bus.go), with
--                the proof in Dials, Cache the leaderboard in cache.go, with the proofs in Bests and
--                Champions.
--   Sandbox      services/gateway/internal/sandbox/sandbox.go: Paths has the check of a path, Extract the
--                extraction of an archive, Save `SaveSource`, Run `Build`, `Run` and `waitHealthy`; the
--                proofs are Inside, Limits, Archives, Saves and Waits.
--   Telemetry    services/telemetry/cmd/main.go: Rows has the encoding of a sample, Flusher `flusher` and
--                `publishLive`, Scores and Finals `finalizeRun`, Intake the channel of
--                samples; other proofs are Batches (what is written) and Live (what is reported).
--   Fleet        services/botfleet/internal/bot: Rng has rng.go, Bot the order of a round of `Bot.Run`
--                (bot.go), Schedule its loop and the samples, with the proof in Latency,
--                Replay the orders of `ReplayMarketData` (replay.go). Control has a replica of
--                services/botfleet/cmd/main.go, and Steps all of them, with the expiry of their keys
--                in Redis, as a step relation; the proofs are Supervisors and Launches.
--   Analyzer     services/ai-analyzer: Llm has `GenerateJSON`, Agents the agents and `Analyze`, Providers
--                the choice of a language model, Handlers the HTTP handlers of cmd/main.go, Breakdown
--                the scores of a report (internal/report/generator.go); other proofs are Retries, Risk and
--                Requests.
-- A bot posts an order to an engine; `submit` changes the engine's state and answers with acks and
-- fills. The validator posts its scenario, applies the same orders to its reference book and counts
-- the cases in which the first ack's fill is the expected one. The gateway stores an upload, builds and
-- deploys it, has it validated, and starts runs only of what is deployed. The analyzer asks a language
-- model about a source and sums up the findings.
--
-- Representation: an int64 that is only compared is a number; the quantity and the price of a
-- request are integers, and those of a resting order numbers, since a request with others is refused.
-- Sums of quantities do not wrap; telemetry's sum of latencies does, and is kept, like a latency, as its
-- 64-bit pattern. A slice is a list, best level first; a map is an association list.
-- The reference book's pointers are told apart by the sequence number that each object gets once.
-- The matching loops of the engine recur on the lists that they consume. The loop of the reference
-- book runs on fuel: each round but the last removes an order, so one more round than the other side
-- has orders is enough, and the theorems on `apply` are about that amount. The binary search has `n`
-- rounds of fuel, each of which at least halves the interval. The wait for a container has 62 rounds of
-- fuel: a round takes 500 ms, and the 30 seconds are over after 61 of them. A `Connect` pauses for two
-- seconds after an attempt, so that 32 attempts are enough for 60 seconds, and 17 for 30.
--
-- Parameters: the clock, the HTTP exchange of the validator, what the multipart reader, the hash, the
-- id generator, the sandbox, the database connection and the message bus give to a handler; what docker and
-- the operating system do for the sandbox, which of their calls fail and what these leave, and the entries of an archive; what a WebSocket client and
-- the servers that Connect dials answer; the answers of a language model, the decoder of its JSON and
-- `sort.Slice`.
--
-- Not modelled: JSON, HTTP and SQL transport, the signals and the shutdown of the services, the front end.
-- Floating-point numbers are exact fractions, or numbers in units in which they are whole; the validator's
-- score is kept as a count of passed cases.
pub mod Prelude
pub mod Go
pub mod Market
pub mod Engine
pub mod Oracle
pub mod Conformance
pub mod Gateway
pub mod Sandbox
pub mod Telemetry
pub mod Fleet
pub mod Analyzer
