-- ===== src/Lib.antt =====
-- Telemetry Change Guard: which consumers of telemetry (dashboards, alerts, automation) a change of
-- symbols affects, and whether the change may be rolled out.
--
-- The program reads the changes and discovers the consumers with their references; it builds a
-- dependency graph, finds the consumers that each change reaches, and judges the findings by a policy
-- (safety) or by the progress of a migration (readiness).
--
--   Common      lists, texts, maps as association lists, sorting, results
--   Domain      internal/domain: the records that all packages share
--   Config      internal/config/validation.go and changeset.go: ValidateChangeSet, ValidateMigration and
--               NormalizeMigration; each function returns the issues that it adds
--   Manifest    internal/config/changeset.go and migration.go: MarshalChangeSet, ParseChangeSet and
--               ParseMigration over a YAML library that is a parameter
--   Graph       internal/graph/graph.go: the graph as four maps, AddNode, AddEdge, the listings; in
--               Graph/Traverse ImpactPaths, the breadth-first search
--   Impact      internal/impact: in Impact/Build BuildGraph, in Impact/Matching SymbolMatches and its
--               parts, in Impact/Findings TypeForConsumer, ImpactedConsumers and Analyze
--   Safety      internal/safety/evaluator.go: in Safety/Policy policies and decisions, in
--               Safety/Evaluate Evaluate, ErrorResult and ExitCode
--   Readiness   internal/readiness/evaluator.go: in Readiness/Classify classify and summarize, in
--               Readiness/Gate the statuses, in Readiness/Evaluate Evaluate
--   Snapshot    internal/snapshot/diff.go: the differences of two normalized snapshots, and the loop of
--               Compare that makes changes and diagnostics of them
--   Ownership   internal/ownership: in Ownership/Patterns compilePathMatcher, in Ownership/Rules and
--               Ownership/Metadata the two kinds of rules, in Ownership/Loading the reading of their
--               files, in Ownership/Evidence and Ownership/Enrich the choice of an owner and
--               EnrichWithBudget
--   Source      internal/source: in Source/Segments matchSegments, in Source/Expand the expansion of
--               patterns, in Source/Budget the budget of files and bytes, in Source/Patterns
--               ExpandPatterns of the budget
--   Analysis    internal/analysis/engine.go: in Analysis/Sources loadPatterns, in Analysis/Limits the
--               limits and the trace mappings, in Analysis/Discover Discover and AnalyzeChangeSet, in
--               Analysis/Run RunSafetyWithDiagnostics and Run
--   Neutral     internal/ownership, internal/impact and internal/safety together
--   Guarantee   Analyze and the safety evaluation together
--   Examples    the theorems at concrete inputs
--
-- Maps of Go are association lists and sets are lists; where the code ranges over a map it sorts, and
-- so does the model. A pair of a value and an error is a Result, or a pair with an Option where the
-- code returns both. `sort.Slice` is insertion sort by the code's own comparison. The search runs on
-- one unit of fuel for each stored edge and one more, since each round but the first takes a node off
-- the queue that some edge has put there.
--
-- The files of internal/ownership, and the context and the budget of internal/analysis, are records of
-- operations that pass on a state, so that each call may answer differently. The context may be cancelled
-- at any call of Err. The file system of internal/source is a record of functions without a state, which
-- stands for what one operation sees: two operations may be given two records, but a change between two
-- calls inside one operation is not modelled, save that Open has the opened file and its Stat apart from
-- what Lstat gave before. Integers are natural numbers, so negative limits are not modelled.
--
-- strings.ToLower and other functions of Go's library on texts, the formats %d and %q, the YAML and JSON
-- libraries, the engine of regular expressions, and the digest in the identifiers that the comparison
-- of snapshots makes are parameters. Errors are constructors of an error type, except the issues of the
-- validation and the errors of internal/ownership, which keep their texts. Not modelled: the adapters
-- that discover consumers, of which the pipeline takes the results, the loading of the adapters with
-- settings of their own, the validation of the product configuration, the reports, the command line,
-- and the normalization of snapshots.
pub mod Common
pub mod Domain
pub mod Config
pub mod Manifest
pub mod Graph
pub mod Impact
pub mod Safety
pub mod Snapshot
pub mod Readiness
pub mod Ownership
pub mod Neutral
pub mod Source
pub mod Analysis
pub mod Guarantee
pub mod Examples
