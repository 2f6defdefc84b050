-- ===== src/Samples/Scopes.antt =====
-- The scope of pkg/resolver/trie_scope.go and the symbols of pkg/resolver/symbol.go.
use scala_gazelle.Prelude.{
  ◌≡◌, refl, Str, str_has_eq, strs_has_eq, codes, false, none, some, [], if◌then◌else◌, nat_beq,
  contains, longest_first,
}
use scala_gazelle.Label.{Label, label_has_eq}
use scala_gazelle.Collections.PathTrie.{node, leaf, child, find_child}
use scala_gazelle.Collections.PathTrie.Named.{is_named}
use scala_gazelle.Collections.PathTrie.Pruned.{is_live}
use scala_gazelle.Collections.PathTrie.Walk.{visit, path_steps, path_calls}
use scala_gazelle.Resolver.ImportSegmenter.{import_segmenter}
use scala_gazelle.Resolver.ImportSegmenter.Split.{split_parts}
use scala_gazelle.Resolver.Symbol.{Symbol, Store, class}
use scala_gazelle.Resolver.TrieScope.{TrieScope, get_symbol}
use scala_gazelle.Resolver.TrieScope.Lookup.{longest_match, get_symbol-longest_match}
use scala_gazelle.Resolver.TrieScope.Update.{IsWellFormed}

abbrev label_in : Str → Label
label_in pkg = record { repo = []; pkg = pkg; name = codes "lib"; relative = false }

abbrev bar_in : Str → Symbol
bar_in pkg = record {
  kind = class;
  name = codes "com.foo.Bar";
  label = label_in pkg;
  provider = codes "java";
  conflicts = [];
  requires = [];
}

-- com.foo.Bar by //a:lib, and once more by //b:lib
abbrev two_bars : Store
two_bars = record {
  at = λ r. if nat_beq r 0 then bar_in (codes "a") else bar_in (codes "b");
  next = 2;
}

abbrev with_bar : TrieScope
with_bar = record {
  root = node none (
      child (codes "com")
        (node none
          (child (codes "foo") (node none (child (codes "Bar") (node (some 0) leaf) leaf)) leaf))
        leaf);
}

IsWellFormed-with_bar : IsWellFormed with_bar
unfolding is_named is_live
IsWellFormed-with_bar = record { named = refl; pruned = refl }

nested_name : get_symbol with_bar (codes "com.foo.Bar.Baz") ≡ some 0
unfolding get_symbol visit path_steps path_calls import_segmenter find_child
nested_name = refl

get_symbol-longest_match_example :
    get_symbol with_bar (codes "com.foo.Bar.Baz") ≡ longest_match with_bar (codes "com.foo.Bar.Baz")
get_symbol-longest_match_example =
    get_symbol-longest_match with_bar (codes "com.foo.Bar.Baz") IsWellFormed-with_bar.named

apart :
    contains (split_parts (codes "com.foo.Bar")) (longest_first (split_parts (codes "com.foo")))
    ≡ false
unfolding split_parts
apart = refl
