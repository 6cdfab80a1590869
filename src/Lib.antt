-- ===== src/Lib.antt =====
-- pawnlint, a linter for Pawn: the parts that carry a diagnostic from its range in the source to
-- the report and to the fix, as functions on lists of bytes.
--
-- The parts and how they interact
--   A rule reports diagnostics, whose ranges are offsets that the line table of the file turns into
--   lines and columns. The suppression directives in the comments of the file are parsed and
--   matched against each diagnostic's rule and line. Diagnostics are sorted for the report. With
--   fixes asked for, the edits of all diagnostics are gathered by file, validated and applied.
--   Rules that compare values ask the constant evaluator. A baseline holds the fingerprints of
--   accepted diagnostics, which are left out of the report. Rules are registered with their
--   options and aliases; a configuration's table of rules is read over the registry, which also
--   resolves the IDs in directives. Rules that follow the control flow of a function ask its graph.
--
-- The files
--   Source      internal/source/source.go: Position and Range.
--   LineTable   internal/source/linetable.go: NewLineTable is new_line_table, and LineCount,
--               Lookup, Range, LineText, DisplayWidth, searchLine and clamp have the same names
--               in snake_case. Scan is the independent description: count from the front.
--   Diagnostic  pkg/diagnostic/diagnostic.go: the data, Sort (sort_diagnostics), Severity.String
--               (severity_string), ParseSeverity and Category.String (category_string).
--   Fix         internal/fix/fix.go: Build and validateEdits; Fix/Write is Write, on a disk that
--               maps paths to files and a System that says which step fails. A temporary file
--               that a step fails for is removed, or stays where os.Remove fails too.
--               Fix/Diff is Diff.
--   Suppress    pkg/lint/suppress: Suppress.antt is the data and SortDirectives, Suppress/Parser
--               is parser.go, Suppress/Matcher is matcher.go.
--   Eval        internal/semantic/eval.go: Eval/Word has the conversions between int64 and int32,
--               Eval/Binary evalBinary, Eval/Literal evalLiteral, and Eval.antt the recursion.
--   Baseline    internal/baseline/baseline.go: Validate, Generate, Apply and what they call;
--               Baseline.Outside holds SHA-256 and the functions of path/filepath.
--   Tree        the trees of the parser, and IsStatement of internal/source/walk/predicates.go.
--   Complexity  pkg/rules/maintainability: cyclomatic_complexity.go, npath_complexity.go and
--               maximum_nesting.go. A recursion into a field of a node picks the result for that
--               field from the results for all children.
--   Flow        internal/controlflow/model.go: the builder of control-flow graphs, as a state that
--               is passed along, and the search for reachable blocks (Flow/Graph, Flow/Statements,
--               Flow/Search).
--   Options     pkg/lint/options.go: the check of an option's value and of its declaration. A field
--               of an object list is read by the normalization of that field.
--   Registry    pkg/lint/registry.go: the registry of rules and aliases, and the profiles. Book is
--               its specification by two maps.
--   Config      internal/config/resolve.go: a table of rules over Registry and Options, and its merge
--               with a profile.
--   Engine      pkg/lint: engine.go from the reports of the rules on, suppression.go and aliases.go,
--               over Suppress, Registry, LineTable and Diagnostic. Engine/Hidden says which
--               diagnostics a directive hides, apart from the loop.
--   Strings     the functions of Go's strings package that these parts call.
--   Base        integers, lists, bytes, and sorting: sort.SliceStable and sort.Slice are an
--               insertion sort, which is one stable sort; where the code's sort is not stable, the
--               theorems hold since the order tells any two different edits apart.
--
-- Conventions
--   A string or a []byte is a list of bytes (Text). Go's int is an exact integer ℤ for offsets and
--   lines, none of which comes near 2^63; the evaluator's int64 arithmetic wraps, as written out in
--   Eval/Word. A map is an association list or a function. An error is a value of a result type,
--   with the fields that its message is made of. The flags of used directives are passed along and
--   returned; a nil slice is none.
--
-- Fuel
--   searchLine halves its interval, and the length of the table is its fuel, which is enough
--   since a round shortens the interval. The evaluator is bounded by how many symbols are entered
--   inside one another; the number of symbols is enough, since a symbol that is being evaluated is
--   not entered again. The digits of a number n are computed with n + 1 rounds, and there are no more
--   digits than that. markReachable puts a block into its queue at most once, so the number of blocks is its fuel. All else is
--   structural recursion.
--
-- Not modelled
--   JSON, the parser
--   library and its trees but for what the evaluator, the directives, the graphs and the measures
--   read of them, the other rules, the preprocessor, the project model, the loading and the other
--   keys of a configuration, caches, output formats and the command line. In the engine the choice
--   and the running of rules, the recovery of panics, cancellation and timing are left out. The
--   resolution of identifiers to symbols is part of the evaluator's input.
pub mod Engine
pub mod Config
pub mod Options
pub mod Registry
mod Base
pub mod Source
pub mod LineTable
pub mod Diagnostic
pub mod Fix
pub mod Strings
pub mod Suppress
pub mod Eval
pub mod Tree
pub mod Complexity
pub mod Flow
pub mod Baseline
