-- ===== src/Lib.antt =====
-- A verification library for the feature flag service: the evaluation engine (internal/core), the
-- layered configuration and its store (internal/config), the embedded client (pkg/client), traces,
-- metrics and the log (internal/obs), the two HTTP listeners (internal/transport) and their wiring
-- (cmd/flagd).
--
-- How the parts interact. A flag is written in three layers: a base entry, an overlay of an
-- environment, and an ops override. Each layer is checked alone; `mergeFlag` resolves them to one flag
-- with the provenance of its fields; `validateResolved` accepts or rejects that flag; the store builds a
-- snapshot of the accepted flags for each environment, with the last good version of a rejected one, and
-- tells the subscribers; and a snapshot is what the engine reads. `Evaluate` looks a flag up, checks the type that the caller
-- asks for, and answers by the switch, by the first rule that matches, by the percentage rollout, or by
-- the default; on an error it falls back to the caller's own default. The client embeds the engine: its
-- updater takes snapshots from a source and keeps the newest, a writer saves them to a file that the next
-- start reads, and its state machine says whether it has configuration and whether that is current. In
-- the server, the admin listener hands a layer to the store and reports what was published; the
-- evaluation listener pins one snapshot of the store for a request and runs the engine on it behind a
-- panic boundary; both tell the recorder, which names series of the metrics registry, and the log, which
-- redacts and samples; and around every handler stand the trace, the metric of the request and a boundary.
--
-- Files and the code that they model.
--   Common            operators, Boolean tests, lists, integers, byte strings, decimals, association lists
--   Core/Value        internal/core/value.go: the scalar union, its types and accessors
--   Core/Model        internal/core/model.go, reason.go and result.go: rules, rollouts, flags, results
--   Core/Context      internal/core/evalctx.go: the subject and `Attribute`
--   Core/Trace        outcomes, panics and the calls of an observer: what a call returns is a `Run`,
--                     and a computation that reports is a `Traced` run
--   Core/Semver       internal/core/semver.go: `parseSemver`, `compareSemver`; below it the order laws
--   Core/Matcher      internal/core/matcher.go: the operators, `matchCondition`, `matchRule`
--   Core/Bucket       internal/core/bucket.go: `NamespaceKey`, `composeKey`, `reduceHash`
--   Core/Evaluator    internal/core/evaluator.go and contract.go: `New` and `Evaluate`; Contract has what
--                     every call keeps to, Decision the pure specification, Ramp and Percent rollouts
--   Config/Opt        internal/config/opt.go: absent, null or a value
--   Config/Layer      internal/config/layer.go: the wire types and the small parsers
--   Config/Findings   internal/config/validate.go: findings and the filters over them
--   Config/Merge      internal/config/merge.go: `mergeFlag`; Spec states it field by field,
--                     Provenance the layers that it records
--   Config/Resolved   internal/config/validate.go: `validateResolved`; Sound and Answers draw from it
--   Config/Premerge   internal/config/validate.go: the checks of one layer alone, `validateRuleList` (Rules),
--                     `ValidateBase`, `ValidateOverlay` and `ValidateOps`; below them what they leave
--   Config/Snapshot   internal/config/snapshot.go: snapshots, their builder and the fingerprint
--   Config/Store      internal/config/store.go: the body of `buildEnvLocked` (Build), the store's state and
--                     `notify` (State), publication, `Set` and `Rebuild` (Push), subscriptions and reads
--                     (Subscribe); Steps has sequences of calls, Sound, Outcome and Keep what builds keep,
--                     Converge what subscribers hold, Isolation which environments a push leaves alone
--   Client/Names      pkg/client/cache.go: `encodeEnvName`
--   Client/Codec      pkg/client/cache.go: `MemSnapshot` and `JSONCodec`, up to encoding/json
--   Client/Writer     pkg/client/cache.go: `asyncWriter`, interleaved with its callers; Rest and
--                     Settles have what it has written in the end
--   Client/Updater    pkg/client/updater.go, with `cache.apply` and `hydrateFromL2`: the handlers over the
--                     client's state; Newest, Backed and Backoff have what they keep to
--   Client/Evaluate   pkg/client/client.go: the evaluation calls; Shipped has them with the engine
--   Client/Limiter    pkg/client/client.go: `logLimiter`, its cells with interleaved calls
--   Client/State      pkg/client/state.go: the state machine; Runs takes calls one after the other,
--                     Interleaved takes them with other calls between their two halves
--   Obs/Trace         internal/obs/trace.go: trace headers in and out; Accepted has which ids are taken over,
--                     Hops that an id goes from one service to the next
--   Obs/Labels        internal/obs/metrics.go: `ValidateLabel`, `SanitizeLabels`, `seriesKey`
--   Obs/Registry      internal/obs/metrics.go: `ExpvarMetrics`; Capped has how far it grows
--   Obs/Histogram     internal/obs/metrics.go: `histogram`; Cumulative has what its running counts are
--   Obs/Recorder      internal/obs/recorder.go and the metrics calls of metrics.go; Kinds and Safe have
--                     which of them are histograms and that none panics
--   Obs/Sampler       internal/obs/log.go: `Sampler`; Volume has what its counts add up to
--   Obs/Log           internal/obs/log.go: `redactHandler`, `EvaluationError`; Redact has which keys are never written
--   Http/Errors       internal/transport/apierr/apierr.go: codes, `Sanitize`, `Write`
--   Http/Writer       internal/transport/safe/safe.go and http/middleware.go: the response writers, the panic
--                     boundary, the metric of a request
--   Http/Requests     internal/transport/http/api.go, middleware.go and server.go: wire types, checks on
--                     names, `decodeJSON`, `withDefaults`
--   Http/Source       internal/transport/http/deps.go: what the handlers are given and give
--   Http/Evaluate     internal/transport/http/eval.go and `safe.Do`: the evaluation handlers; Answers and
--                     Batch have them over the engine
--   Http/Health       internal/transport/http/health.go: `envHealth`, `handleReady`
--   Http/Admin        internal/transport/http/admin.go: `handleApplyLayer`, `handleSnapshotDebug`
--   Server/Wiring     cmd/flagd/wiring.go: the store as snapshot source and as layer applier; Applied joins
--                     listener, adapter and store
-- The modules named Examples, and Client/Scenarios, hold runs of the definitions and the theorems at concrete inputs.
--
-- Conventions. A Go string is the list of its bytes, a sequence is a list (nil and empty alike), a
-- pointer that may be nil is an option, and an interface is a record of functions that may panic.
-- Machine integers are integers or natural numbers with the wrap-around written out where the code can
-- reach it (the multiply-shift of `reduceHash`, the conversion to int32, the counters of generations and
-- subscriptions, the shift of the reconnect delay, the hash of the log limiter); the rest of the code
-- only compares them, or adds where the file says why that is within range. Instants are nanoseconds. A map is a list of pairs, or a function where its keys
-- are constants of the code. A method that holds a mutex is one step; what it does before or after is
-- one of its own where another goroutine can come between: `ApplyLayer` reads the store again after
-- `Set`, with any calls in between, and each load of a snapshot by a handler may give another one.
--
-- Fuel. The loops of semver.go over dot-separated identifiers take at least one byte from a text in
-- each round, and run on the length of the text plus one. The writer's goroutine runs for ever; left
-- alone it is at rest after seven steps, which is what `settle` is given, with the case that each `select`
-- takes where both are ready. All other loops are structural.
--
-- Outside the model. xxhash.Sum64String is a parameter, of which only its range, a uint64, is used;
-- json.Marshal and SHA-256 in the fingerprint are parameters of which nothing is used; the source's
-- frames, the clock and rand.Int64N are arguments. The product with 0.05 in `QuarantineBudget` is the
-- quotient by 20, which its whole part equals for any length of a list in memory. JSON decoding
-- (encoding/json), deep copies of layers and flags, and the texts of messages are left out, and so are
-- the file operations of `FileStore`, the timers and goroutines around the updater's handlers, and the
-- client's log lines and metrics. A handler of the updater is one step, so that two that run at once are
-- taken one after the other; but Newest takes what `applyUpdate` loaded apart from what is held when it
-- stores. Of the server, net/http is outside (listeners, routing, the timeout handler) but for its
-- response writer, which does what its documentation says for a request other than HEAD and a status from
-- 100 on; and so are expvar's pages, slog's JSON lines, random ids and main.go.
-- float64 is a type with the operations used; strings.TrimSpace and ToLower are an interface, of which
-- what they return on printable ASCII is used; strconv.Quote and the decoders of bodies are parameters.
pub mod Common
pub mod Core
pub mod Client
pub mod Config
pub mod Obs
pub mod Http
pub mod Server
