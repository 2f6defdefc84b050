-- ===== src/Lib.antt =====
-- Models of the core of scala-gazelle, a gazelle extension that finds the bazel deps of Scala rules from
-- the imports in their sources, with the tools that come with it.
--
-- How the program works. Symbol providers put symbols, each with the label of its rule, into a scope: a
-- trie over dotted names. For each Scala rule the extension gathers the imports of its files, adds the
-- imports that directives make implicit, resolves each import to a symbol through a chain of resolvers,
-- settles conflicts between labels that provide one name, and writes the labels of the symbols into the
-- deps of the rule.
--
-- Which file models what:
--   Prelude, Prelude/*: bytes, lists, association lists for Go maps, sorting, and the functions of
--     package strings, bufio and regexp that the source uses. Str is a list of bytes.
--   Label: the struct of bazel-gazelle's package label. Its functions are the parameter LabelApi.
--   Collections/PathTrie: pkg/collections/path_trie.go. get_at, put_at, delete_at and the walks follow
--     the loops of Get, Put, Delete, Walk and WalkPath over the parts of a key.
--   Collections/Intent, Collections/Slice: pkg/collections/intent.go and slice.go. A slice is an array
--     and a length, since the source writes to arrays that other slices share.
--   Resolver/ImportSegmenter, Resolver/TrieScope: pkg/resolver/trie_scope.go.
--   Resolver/Symbol: pkg/resolver/symbol.go. Symbols stand in a store and are named by their addresses,
--     because Conflict and Require write through shared pointers.
--   Resolver/Import, Resolver/ImportMap: pkg/resolver/import.go and import_map.go.
--   Resolver/Scope: the interface of pkg/resolver/scope.go with its implementations, chain_scope.go,
--     trim_prefix_scope.go and scala_scope.go. GetScope allocates; addresses are what ScalaScope
--     compares.
--   Resolver/SymbolResolver: pkg/resolver/*_symbol_resolver.go as one data type. An answer comes with
--     the resolver and the store as they are afterwards.
--   Resolver/ConflictResolver: pkg/resolver/*_conflict_resolver.go, and ResolveConflict of
--     pkg/scalaconfig/config.go.
--   Language/UniverseResolver: newUniverseResolver of language/scala/symbol_resolver.go.
--   Language/ScalaRule: language/scala/scala_rule.go, fileImports and Provides; below it Imports with
--     the loop over implicit imports, Exports, and Resolve with ResolveImports and ResolveExports.
--   ScalaConfig/State, ScalaConfig/Directives, ScalaConfig/Patterns: pkg/scalaconfig/config.go: the
--     state of a configuration with clone and getOrCreate, ParseDirectives with the handler of each
--     directive, and the questions that patterns of files and names answer.
--   ScalaConfig/MergeDeps, ScalaConfig/RuleAttr, ScalaConfig/Named: mergeDeps and ruleAttrMergeDeps of
--     pkg/scalaconfig/config.go, and the directives for conflict resolvers and deps cleaners.
--   RuleConfig: pkg/scalarule/config.go. Resolver/LabelRewrite: pkg/resolver/label_name_rewrite_spec.go.
--   Language/Lifecycle: language/scala/generate.go, resolve.go, lifecycle.go, package_marker_rule.go and
--     known_rule_registry.go: the two phases of a run.
--   Language/ScalaPackage: generateRules of language/scala/scala_package.go, coverage.go and loads.go.
--   Language/Setup: the set-up of language/scala/flags.go with the registries of pkg/resolver and
--     pkg/scalarule.
--   Language/Sweep: sweepTransitive of language/scala/existing_scala_rule.go.
--   Parser: pkg/parser/memo_parser.go.
--   Provider: PutSymbol of language/scala/scope.go; below it Source, Java, Protobuf and Semanticdb
--     with pkg/provider/source_provider.go, java_provider.go, protobuf_provider.go and
--     semanticdb_provider.go.
--   WildcardImport: pkg/wildcardimport: the text file, the scanner and the loop of the fixer.
--   JarIndex: pkg/jarindex/merge.go.
--   Maven: pkg/maven/coordinate.go, multiset.go and resolver.go.
--   Autokeep: pkg/autokeep/scanner.go and deps.go.
--   Samples: runs on concrete inputs.
--
-- State and errors. State is passed from call to call. An error is none, or a constructor of a result
-- type; a panic, a nil dereference and log.Fatal are the constructor panicked of Outcome.
--
-- Fuel. Two loops run on fuel, because they need not end: the loop over implicit imports (gather) and
-- the rounds of the wildcard fixer (fix_rounds). For the first, fuel above the rounds that the names on
-- the stack cause suffices where the directives have a rank; for the second, one more than the symbols
-- that the build can name. All other loops are structural.
--
-- Parameters. bazel-gazelle (labels, override directives, the rule index, # keep, the formatting of
-- expressions), doublestar patterns, deps cleaners, the implementations of rules, the parser of sources
-- and the hash of files, the builds that the fixer runs, whether files can be written, and the order in
-- which Go ranges over a map.
--
-- Not modelled: logging, printing and the definition of flags; reading and writing of files and processes
-- (the process of the parser, the caches, the commands under cmd); generated protobuf code; the provider
-- for Maven, filesets, and pkg/semanticdb, pkg/glob and pkg/starlarkeval, which stand outside the path
-- from an import to a dep.
pub mod Prelude
pub mod Collections
pub mod Label
pub mod Resolver
mod Samples
pub mod Language
pub mod WildcardImport
pub mod JarIndex
pub mod Maven
pub mod Autokeep
pub mod ScalaConfig
pub mod RuleConfig
pub mod Parser
pub mod Provider
