-- ===== src/Lib.antt =====
-- svcdoctor: a diagnosis tool for services, its evidence domain, its diagnosis engine, its multi-target
-- executor and its SCRAM client.
--
-- svcdoctor probes a service, records what it saw as evidence, derives findings from the evidence
-- and writes a report; in a run over many targets it does so for each and writes one run report.
-- This library models the parts that decide what a report can say.
--
-- Domain/Vocabulary, Domain/Names, Domain/Evidence: internal/domain/state.go, severity.go, layer.go,
--   failureclass.go and the other enumerations, evidenceid.go, names.go, serviceid.go (the grammars
--   of the names), evidence.go, subject.go, attribute.go, elapsed.go (`NewEvidence`).
-- Domain/Recommendation, Domain/Finding: internal/domain/recommendation.go, finding.go,
--   findingcode.go (`NewClassifiedRecommendation`, `NewFinding` and what it normalises).
-- Domain/Graph: internal/domain/graphbuilder.go and graph.go. Relation holds the sets of edges and
--   `reachable`, FindCycle the three-colour search `findCycle`, Builder the operations `AddEvidence`,
--   `AddParent`, `AddBlockedBy` and `Freeze`. A map is an association list in insertion order.
-- Domain/Meta, Domain/Summary, Domain/Report: internal/domain/run.go, target.go, vantage.go,
--   reportsecurity.go, summary.go (`deriveSummary`), report.go (`NewReport`, `SortFindings`).
-- Domain/RunReport: internal/domain/runreport.go (the constructors of a target result,
--   `NewRunReport`, `deriveRunSummary`).
-- Fleet/Params, Fleet/RunOne, Fleet/Execute: internal/fleet/run/run.go and execute.go. The
--   dispatcher and its workers are the step relation `Step`; a schedule is a sequence of its steps.
--   What a resolver or a runner answers, and what the contexts and the clock say, is a value that the
--   schedule is given. Each worker writes only its own slot of the results, so one call of `runOne`
--   is one step. `quote` is the text that `%q` makes of a string; it only enters error messages.
-- Rabbitmq/Frame, Rabbitmq/Table, Rabbitmq/Tune: internal/adapter/rabbitmq/wire/frame.go, table.go
--   and `SelectTune` of connection.go. A connection is the bytes that it still gives and the error
--   behind them; a cursor is the bytes from its offset on.
-- Redis/Resp: internal/adapter/redis/wire/resp.go, the reader of RESP2 replies with its budget of
--   bytes. `readFrame` counts the levels that are left; a panic of the runtime is one of the errors.
-- Diagnosis: internal/diagnosis. RuleId is ruleid.go, Basis basis.go, Confidence confidence.go;
--   Groups, Merge and Converge are converge.go (the groups that may be merged, `mergeGroup` and
--   `Converge`); Registry is registry.go with `Rule` and `RuleContext`, Engine engine.go and
--   outcome.go, Validate validate.go. A rule is a function that returns findings or panics.
--   Queries and Siblings are graphquery.go, Boundary boundary.go, FailureBoundary
--   failureboundary.go; ActionText and Advice are advice.go (`ValidateActionText` and the rest).
-- Scram: internal/sasl/scram. Username is saslname.go, Parse parse.go, Exchange scram.go; the steps
--   return the new state with their result. HMAC-SHA-256 and SHA-256 are parameters, and so is what a
--   derivation and the source of nonces answer.
-- Cli/Exit: internal/cli/exit.go (`ExitCode`, `RunExitCode`).
-- Base: Boolean tests, lists and integers over the native numbers, Go's strings as lists of bytes
--   with UTF-8 decoding, trimming and base64, results, and the stable sort. Tests: runs on small inputs.
--
-- Fuel: `reachable` runs one round for each edge and two more, since each edge is pushed at most
-- once; `findCycle` goes as deep as the relation has keys and one more, since a path visits a key
-- once; `BlockedChain` runs one round for each edge and two more, since an id is queued at most once;
-- the walk over a field table has one round for each byte and one more, which is more than enough,
-- as a field has two bytes or more; a line of a Redis reply has one round for each byte that is left and one more, in
-- which the connection ends. The theorems hold for these bounds, so none of them runs out.
--
-- Go's enumerations are data types, so a value outside the named constants has no counterpart and a
-- check for one is not needed. Times are natural numbers since the zero instant without a location,
-- durations are integers without overflow. Labels of error messages are left out where no code reads
-- them; an error is the sentinel and the check that failed.
--
-- Not modelled: JSON encoding and rendering, the network probes, the other protocol adapters and the
-- calls on a connection around the codecs, the rules of the services, redaction, configuration
-- files and secrets, and the wiring of commands.
pub mod Base
pub mod Cli
pub mod Diagnosis
pub mod Domain
pub mod Fleet
pub mod Rabbitmq
pub mod Redis
pub mod Scram
pub mod Tests
