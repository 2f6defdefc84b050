-- ===== src/Samples/Tries.antt =====
-- The trie of pkg/collections/path_trie.go and the segmenter of pkg/resolver/trie_scope.go.
use scala_gazelle.Prelude.{
  ℕ, ◌≡◌, refl, Str, codes, none, some, List, [], ◌∷◌, strs_has_eq, ◌==◌, if◌then◌else◌,
}
use scala_gazelle.Collections.PathTrie.{
  Node, node, leaf, child, parts, parts_of, find_child, set_child, delete_child, put_at, delete_at,
}
use scala_gazelle.Collections.PathTrie.Put.{value_at, value_at-put_at}
use scala_gazelle.Collections.PathTrie.Delete.{left_by, value_at-delete_at}
use scala_gazelle.Collections.PathTrie.Pruned.{is_live, IsPruned}
use scala_gazelle.Resolver.ImportSegmenter.{import_segmenter}

abbrev com_foo : List Str
com_foo = codes "com" ∷ codes "foo" ∷ []

abbrev com_foo_bar : List Str
com_foo_bar = codes "com" ∷ codes "foo" ∷ codes "Bar" ∷ []

-- "com" has no value, "com.foo" has 1 and "com.foo.Bar" has 2
abbrev two_values : Node ℕ
two_values = node none (
    child (codes "com")
      (node none
        (child (codes "foo") (node (some 1) (child (codes "Bar") (node (some 2) leaf) leaf)) leaf))
      leaf)

built :
    (put_at com_foo_bar (some 2) (put_at com_foo (some 1) (node none leaf)).trie).trie ≡ two_values
unfolding put_at set_child find_child
built = refl

pruned_after_delete :
    left_by two_values (delete_at com_foo_bar two_values)
    ≡ node none
        (child (codes "com") (node none (child (codes "foo") (node (some 1) leaf) leaf)) leaf)
unfolding delete_at find_child delete_child set_child
pruned_after_delete = refl

segments : parts_of import_segmenter (codes "com.foo.Bar") ≡ com_foo_bar
unfolding parts import_segmenter
segments = refl

value_at-put_at_example :
    value_at com_foo (put_at com_foo_bar (some 3) two_values).trie
    ≡ (if com_foo_bar == com_foo then some 3 else value_at com_foo two_values)
value_at-put_at_example = value_at-put_at com_foo_bar com_foo (some 3) two_values

value_at-delete_at_example :
    value_at com_foo (left_by two_values (delete_at com_foo_bar two_values))
    ≡ (if com_foo_bar == com_foo then none else value_at com_foo two_values)
value_at-delete_at_example = value_at-delete_at com_foo_bar com_foo two_values

IsPruned-two_values : IsPruned two_values
unfolding is_live
IsPruned-two_values = refl
