-- ===== src/Autokeep/Diagnostics.antt =====
-- The messages of build/stack/gazelle/scala/autokeep/autokeep.proto that pkg/autokeep writes.
use scala_gazelle.Prelude.{Str, Option, List}

-- the oneof `error`
pub data ErrorKind : Type 0 where
  -- source file, symbol
  missing_symbol : Str → Str → ErrorKind
  -- symbol, package name
  not_a_member_of_package : Str → Str → ErrorKind
  -- unused dep, rule label
  buildozer_unused_dep : Str → Str → ErrorKind

pub record ScalacError : Type 0 where
  pub rule_label : Str
  pub build_file : Str
  pub error : Option ErrorKind

pub record RuleDeps : Type 0 where
  pub label : Str
  pub build_file : Str
  pub deps : List Str

pub record DeltaDeps : Type 0 where
  pub add : List RuleDeps
  pub remove : List RuleDeps
