-- ===== src/Samples/Resolvers.antt =====
-- The import maps, the scopes and the resolvers of pkg/resolver, on small inputs.
use scala_gazelle.Prelude.{
  ◌≡◌, refl, arith, Str, str_has_eq, codes, false, ◌||◌, ◌==◌, nat_beq, none, some, [], ◌∷◌, ◌++◌,
  if◌then◌else◌, or_else,
}
use scala_gazelle.Prelude.Map
use scala_gazelle.Label.{Label, LabelApi, label_has_eq}
use scala_gazelle.Collections.PathTrie.{node, leaf, child, find_child, get_at, parts}
use scala_gazelle.Collections.PathTrie.Walk.{visit, path_steps, path_calls}
use scala_gazelle.Resolver.ImportSegmenter.{import_segmenter}
use scala_gazelle.Resolver.Symbol.{Symbol, Store, class}
use scala_gazelle.Resolver.TrieScope
use scala_gazelle.Resolver.TrieScope.{TrieScope}
use scala_gazelle.Resolver.Scope.{
  Scope, trie_scope, get_symbol, get_scope, chain_get_scope, scala_scope, new_scala_scope, created,
  root_prefix,
}
use scala_gazelle.Resolver.Scope.Guard.{layers, get_scope-scala_scope}
use scala_gazelle.Resolver.Import.{new_direct_import}
use scala_gazelle.Resolver.ImportMap.{OrderedImportMap, new_import_map, deps}
use scala_gazelle.Resolver.ImportMap.Deps.{first_dep, deps_lem}
use scala_gazelle.Resolver.SymbolResolver.{
  Gazelle, resolve_symbol, resolve_override, resolve_cross, strip,
}
use scala_gazelle.Language.UniverseResolver.{
  scala_lang_name, new_universe_resolver, resolve_symbol-new_universe_resolver,
}

abbrev lib_in : Str → Label
lib_in pkg = record { repo = []; pkg = pkg; name = codes "lib"; relative = false }

abbrev some_labels : LabelApi
some_labels = record {
  no_label = record { repo = []; pkg = []; name = []; relative = false };
  rel = λ l repo pkg. l;
  to_string = λ l. l.pkg;
  parse = λ s. some (lib_in s);
}

abbrev named : Str → Symbol
named name = record {
  kind = class;
  name = name;
  label = lib_in (codes "a");
  provider = codes "source";
  conflicts = [];
  requires = [];
}

abbrev symbols : Store
symbols = record {
  at = λ r. if nat_beq r 0 then named (codes "scala.Some") else named (codes "scala");
  next = 2;
}

-- scala.Some, the package scala, and java.lang
abbrev parent : TrieScope
parent = record {
  root = node none (
      child (codes "scala") (node (some 1) (child (codes "Some") (node (some 0) leaf) leaf))
        (child (codes "java") (node none (child (codes "lang") (node none leaf) leaf)) leaf));
}

abbrev scala_part : TrieScope
scala_part = record { root = node (some 1) (child (codes "Some") (node (some 0) leaf) leaf) }

abbrev java_part : TrieScope
java_part = record { root = node none leaf }

abbrev imports_of_b : OrderedImportMap
imports_of_b = new_import_map (new_direct_import (codes "b.C") (codes "X.scala") ∷ [])

deps_lem_example :
    Map.get (lib_in (codes "a")) (deps some_labels symbols (lib_in (codes "b")) imports_of_b) ≡ (
      if lib_in (codes "a") == lib_in (codes "b") || lib_in (codes "a") == some_labels.no_label
      then none
      else first_dep some_labels symbols
          (lib_in (codes "b"))
          (lib_in (codes "a"))
          imports_of_b.values)
deps_lem_example =
    deps_lem some_labels symbols (lib_in (codes "b")) (lib_in (codes "a")) imports_of_b

abbrev outer : Scope
outer = trie_scope 0 parent

made :
    new_scala_scope outer 1
    ≡ created (scala_scope outer (trie_scope 1 scala_part) (trie_scope 2 java_part)) 3
unfolding new_scala_scope get_scope TrieScope.get_scope import_segmenter get_at parts find_child
made = refl

get_scope-scala_scope_example :
    get_scope
      (scala_scope outer (trie_scope 1 scala_part) (trie_scope 2 java_part))
      (codes "scala")
      3
    ≡ chain_get_scope
        (layers outer (trie_scope 1 scala_part) (trie_scope 2 java_part))
        (codes "scala")
        3
get_scope-scala_scope_example =
    get_scope-scala_scope outer outer (trie_scope 1 scala_part) (trie_scope 2 java_part)
      (codes "scala") 1 3 3 made (omega arith)

-- nothing is called _root_
rooted_outer : get_symbol symbols outer (root_prefix ++ codes "scala.Some") ≡ none
unfolding get_symbol TrieScope.get_symbol visit path_steps path_calls import_segmenter find_child
rooted_outer = refl

rooted_scala :
    get_symbol symbols (trie_scope 1 java_part) (root_prefix ++ codes "scala.Some") ≡ none
unfolding get_symbol TrieScope.get_symbol visit path_steps path_calls import_segmenter find_child
rooted_scala = refl

abbrev overrides : Gazelle
overrides = record {
  find_override = λ lang imp own. some (lib_in (codes "o"));
  find_rules = λ lang imp own. [];
}

abbrev no_overrides : Gazelle
no_overrides = record { find_override = λ lang imp own. none; find_rules = λ lang imp own. [] }

resolve_symbol-new_universe_resolver_example :
    (resolve_symbol no_overrides
      (codes "scala")
      (new_universe_resolver outer outer)
      (codes "scala.Some")
      symbols).symbol
    ≡ or_else
        (resolve_override no_overrides scala_lang_name
          (codes "scala")
          (strip (codes "scala.Some"))
          symbols).0
        (or_else (get_symbol symbols outer (strip (codes "scala.Some"))) (
          or_else
            (resolve_cross no_overrides scala_lang_name
              (codes "scala")
              (strip (codes "scala.Some"))
              symbols).0
            (get_symbol symbols outer (strip (strip (codes "scala.Some"))))))
resolve_symbol-new_universe_resolver_example =
    resolve_symbol-new_universe_resolver no_overrides (codes "scala") outer outer
      (codes "scala.Some") symbols
