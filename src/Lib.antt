-- ===== src/Lib.antt =====
-- Verification of apiwright, a runner of declarative API tests.
--
-- Parts and files. A path such as src/core/deep-equal.ts is from the repository's root; a name in
-- snake_case stands for the function of the same name in camelCase unless a comment says otherwise.
-- - Prelude: shared names, Boolean tests, lists over native numbers, template literals.
-- - Core/Value: the runtime values that the core works on; arrays and objects are references into a
--   heap, so that shared and cyclic values are there. A number is the 64 bits of its IEEE double.
-- - Core/DeepEqual: src/core/deep-equal.ts. equal_at_depth is equalAtDepth, with the seen map passed
--   along because the calls change it. Frame shows what the map holds after a call, Guard states the
--   plain comparison without the map, Depth how it grows, Complete compares the two.
-- - Core/PathWalk: src/core/path-walk.ts. walk_from is the loop; Leads is the relation it decides.
-- - Catalog/Markers: src/test-catalog/marker-classifier.ts, prod-safety-classifier.ts and
--   marker-filter.ts; Catalog/Selection has what they select.
-- - Core/Json: the JSON values of schemas, bodies and parameters. Prelude/Maps: insertion-ordered maps.
-- - Assertions/Tokens, State, Parser and Evaluator: the token types, src/assertions/arithmetic-parser.ts
--   and arithmetic-evaluator.ts. The class with its cursor is a state passed along; parse_factor_on and
--   the functions around it are the private methods. Parser/Printer is a printer of our own, Parser/Loops
--   and Ends show how the loops use the tokens up, Levels and RoundTrip read a printed expression,
--   Evaluator/Budget compares the evaluator with the plain value of an expression.
-- - Catalog/Endpoint and Case: the endpoint and the test case with its parameters. Catalog/CaseId:
--   src/test-catalog/test-case-id.ts. Catalog/SchemaWalker: schema-walker.ts. Catalog/Skips:
--   skip-resolver.ts. Catalog/Generators and the files under it: the files of
--   src/test-catalog/generators and assertion-binder.ts.
-- - Catalog/Plan with Skipping, Pairs and Defaults: src/test-catalog/test-plan-generator.ts, the loop over
--   the endpoints with its counters, warnings and pairs. Plan/Reference is a description of its own;
--   Keeps, Counts, Cases, Stamps, Paired and Generated are about what a plan holds.
-- - Runner/Discovery: src/runner/discovery/plan-generator.ts, from loaded endpoints to a plan.
-- - Runner/Limiter: src/runner/execute/concurrency-limiter.ts. The state is the closure of
--   createLimit (active, queue); Step is what callers and tasks may do, Reach the states they lead
--   to, Settles a run in which tasks only settle.
-- - Runner/Retry: src/runner/execute/retry-policy.ts. attempt_loop is the loop of executeWithRetry.
-- - Runner/Verdicts: src/runner/execute/verdicts.ts, without the comparisons of two bodies or of two
--   sets of headers.
-- - Runner/Shard and Runner/Filter: src/runner/filter/sharder.ts and filter.ts.
-- - Db/Expect: src/db/expect/expect-evaluator.ts and row-match.ts, which use deepEqual of the core.
-- - Db/Registry: src/db/pool/connection-registry.ts. The state is the maps of the class and the
--   promises of the event loop; Step is a call or the end of a connect, in any order.
-- - Env/Tree and Env/Templates: src/env/tree-walk.ts and template-resolver.ts, with the regular
--   expressions matched by hand. Env/Templates/Reference is a description of its own.
--   Env/Secrets: src/env/secrets.ts, over the same walk; the registry is passed along. Its
--   Reference says what a reference to a secret is, Scan and Sound compare the matcher with it, and
--   Collected the collector. Env/Sets and Env/Walks are about the sets of paths and names and the walk.
-- - Cli/Gate, Cli/ExitCodes, Cli/Run: src/cli/prod-safety.ts; exit-codes.ts, errors.ts and
--   error-handler.ts; commands/run.ts, which asks the gate and whose errors get the exit codes.
--
-- How they interact: a run (Cli/Run) asks the gate (Cli/Gate) and calls the test runner, which plans
-- the cases of the endpoints (Runner/Discovery over Catalog/Plan and its generators), filters
-- (Runner/Filter, with the selection and the tags of Catalog/Markers) and shards (Runner/Shard) the
-- plan, runs the cases under the limiter and the retry loop, judges their responses (Runner/Verdicts),
-- and checks database rows (Db/Expect) over the connections of the registry (Db/Registry). Comparison
-- of values is that of Core/DeepEqual.
--
-- Bounds. deepEqual's depth counts down from maxDepth, which is the code's own bound (200 by default),
-- so no result depends on extra fuel. The walk over a schema counts down from its maximal depth (64),
-- the groups of the arithmetic parser from maxDepth and the evaluator from its node budget (4096):
-- these are bounds of the code as well. The operator loops of the parser take as fuel the number of
-- tokens that are left, which is enough since each round takes a token (Assertions/Parser/Ends); the
-- search for a value outside an enumeration takes as many rounds as the enumeration has values.
-- attempt_loop recurses on the attempts that are left, count + 1 at first. Counts, delays and
-- shard numbers are natural numbers without a bound; the doubles of the code hold them exactly up to
-- 2 ^ 53, which is not modelled.
--
-- Parameters: what the schema validator answers (Catalog/Plan), the arithmetic of doubles and
-- String.repeat with the texts of numbers and values (Catalog/Generators, Assertions/Evaluator), the
-- parser and the resolver of targets (Assertions), sort, JSON.stringify and the texts of numbers
-- (Env/Templates, Env/Secrets), localeCompare of the platform (Runner/Shard), the CI test, the environment variables
-- and the user's answer (Cli/Gate), the loaders, the flag resolution and the test runner
-- (Cli/Run), what a connector's connect and disconnect answer (Db/Registry), toUpperCase,
-- toLowerCase and split with trim of the runtime (Runner/Verdicts), what an attempt answers
-- (Runner/Retry).
--
-- Not modelled: the tokenizer, the statements and the operators of assertions, the HTTP executor and
-- the case runners, config and flag resolution, the environment loader and the redactor, authentication,
-- database drivers and query templates, importers, reports, documentation output: these are either
-- input and output or parts of their own size.
pub mod Prelude
pub mod Core
pub mod Assertions
pub mod Catalog
pub mod Runner
pub mod Db
pub mod Env
pub mod Cli
