-- ===== src/Resolver/Import.antt =====
-- pkg/resolver/import.go: imports with their provenance, and the tests on them.
use scala_gazelle.Prelude.{
  Str, str_has_eq, Bool, true, false, not, Option, none, some, [], ◌==◌, if◌then◌else◌, codes,
  has_suffix, take, length, ◌-◌,
}
use scala_gazelle.Resolver.Symbol.{Ref, Store}

-- enum ImportKind of build/stack/gazelle/scala/parse/import.proto
pub data ImportKind : Type 0 where
  import_kind_unknown direct main_class implicit extends resolved_name transitive semantic :
      ImportKind

-- `source` is the name of the source file, and `none` where the pointer is nil. The symbol is a
-- reference, and the error is its message.
pub record Import : Type 0 where
  pub kind : ImportKind
  pub imp : Str
  pub source : Option Str
  pub src : Str
  pub symbol : Option Ref
  pub error : Option Str

unfoldable pub new_direct_import : Str → Str → Import
new_direct_import imp source = record {
  kind = direct;
  imp = imp;
  source = some source;
  src = [];
  symbol = none;
  error = none;
}

unfoldable pub new_semantic_import : Str → Str → Import
new_semantic_import imp source = record {
  kind = semantic;
  imp = imp;
  source = some source;
  src = [];
  symbol = none;
  error = none;
}

unfoldable pub new_resolved_name_import : Str → Str → Str → Ref → Import
new_resolved_name_import imp source name symbol = record {
  kind = resolved_name;
  imp = imp;
  source = some source;
  src = name;
  symbol = some symbol;
  error = none;
}

unfoldable pub new_transitive_import : Str → Str → Ref → Import
new_transitive_import imp name symbol = record {
  kind = transitive;
  imp = imp;
  source = none;
  src = name;
  symbol = some symbol;
  error = none;
}

unfoldable pub new_error_import : Str → Str → Str → Str → Import
new_error_import imp source src err = record {
  kind = import_kind_unknown;
  imp = imp;
  source = some source;
  src = src;
  symbol = none;
  error = some err;
}

unfoldable pub new_implicit_import : Str → Str → Import
new_implicit_import imp src = record {
  kind = implicit;
  imp = imp;
  source = none;
  src = src;
  symbol = none;
  error = none;
}

-- the symbol is `none` where the caller passes nil
unfoldable pub new_extends_import : Str → Str → Str → Option Ref → Import
new_extends_import imp source src symbol = record {
  kind = extends;
  imp = imp;
  source = some source;
  src = src;
  symbol = symbol;
  error = none;
}

unfoldable pub new_main_class_import : Str → Import
new_main_class_import imp = record {
  kind = main_class;
  imp = imp;
  source = none;
  src = [];
  symbol = none;
  error = none;
}

-- `IsSelfImport`
unfoldable pub is_self_import : Store → Option Ref → Str → Str → Str → Bool
is_self_import store none repo pkg name = false
is_self_import store (some symbol) repo pkg name =
    if not (repo == [])
    then false
    else if not (pkg == (store.at symbol).label.pkg)
    then false
    else if not (name == (store.at symbol).label.name)
    then false
    else true

-- `IsWildcardImport`
unfoldable pub is_wildcard_import : Str → Option Str
is_wildcard_import imp =
    if not (has_suffix imp (codes "._")) then none else some (take (length imp - 2) imp)
