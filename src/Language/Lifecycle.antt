-- ===== src/Language/Lifecycle.antt =====
-- language/scala/generate.go, resolve.go, lifecycle.go and package_marker_rule.go, with `Resolve` and
-- `Finalize` of scala_package.go: how a run goes from the generation of rules to their resolution.
pub mod Steps
pub mod Order
use scala_gazelle.Prelude.{
  ℕ, zero, suc, Str, str_has_eq, Bool, true, false, not, ◌&&◌, Option, none, some, List, [], ◌∷◌,
  ◌++◌, ◌==◌, if◌then◌else◌, map,
}
use scala_gazelle.Prelude.Map
use scala_gazelle.Prelude.Map.{Assoc}
use scala_gazelle.Label.{Label, label_has_eq}

-- an int, which the count of packages is
pub data ℤ : Type 0 where
  pos : ℕ → ℤ
  negsuc : ℕ → ℤ

abbrev pub increment : ℤ → ℤ
increment (pos n) = pos (suc n)
increment (negsuc zero) = pos 0
increment (negsuc (suc n)) = negsuc n

abbrev pub decrement : ℤ → ℤ
decrement (pos zero) = negsuc 0
decrement (pos (suc n)) = pos n
decrement (negsuc n) = negsuc (suc n)

abbrev pub is_zero : ℤ → Bool
is_zero (pos zero) = true
is_zero _ = false

-- a rule of a package, with whether it has the private attribute for its provider
pub record Rule : Type 0 where
  pub name : Str
  pub has_provider : Bool

-- what gazelle is given to resolve: a rule, or the marker of the package of a directory
pub data Generated : Type 0 where
  rule_of : Rule → Generated
  marker : Str → Generated

-- what a run does in turn. A hook that fails ends the program.
pub data Event : Type 0 where
  on_resolve : Str → Event
  on_end : Str → Event
  resolved : Label → Rule → Event

pub record Work : Type 0 where
  pub from : Label
  pub rule : Rule

-- The state of the language: for each directory the deferred work of its package, the phase, the
-- packages that are not resolved, the rules by label, the names of the symbol providers, and what
-- was done.
pub record ScalaLang : Type 0 where
  pub packages : Assoc Str (List Work)
  pub is_resolve_phase : Bool
  pub remaining_packages : ℤ
  pub known_rules : Assoc Label Rule
  pub symbol_providers : List Str
  pub done : List Event

abbrev pub new_lang : List Str → ScalaLang
new_lang providers = record {
  packages = [];
  is_resolve_phase = false;
  remaining_packages = pos 0;
  known_rules = [];
  symbol_providers = providers;
  done = [];
}

-- `PutKnownRule`; its callers drop the error
unfoldable pub put_known_rule : Label → Rule → Assoc Label Rule → Option (Assoc Label Rule)
put_known_rule from r rules = elim (Map.get from rules) [
  | some old ↦ none
  | none ↦ some (Map.put from r rules)
]

abbrev pub or_same : Assoc Label Rule → Option (Assoc Label Rule) → Assoc Label Rule
or_same rules none = rules
or_same rules (some rules') = rules'

-- the loop over the rules of the package
unfoldable pub put_known_rules : Str → List Rule → Assoc Label Rule → Assoc Label Rule
put_known_rules rel [] rules = rules
put_known_rules rel (r ∷ rs) rules =
    let from : Label = record { repo = []; pkg = rel; name = r.name; relative = false } in
    put_known_rules rel rs (or_same rules (put_known_rule from r rules))

-- `GenerateRules`, given the rules of the package that it makes
unfoldable pub generate_rules :
    Str → Bool → Bool → List Rule → ScalaLang → ScalaLang × List Generated
generate_rules rel has_file generate_build_files rules sl =
    if not has_file && not generate_build_files then (sl, []) else (
      record sl {
        packages = Map.put rel [] sl.packages;
        remaining_packages = increment sl.remaining_packages;
        known_rules = put_known_rules rel rules sl.known_rules;
      },
      map rule_of rules ++ marker rel ∷ [],
    )

abbrev pub log_done : List Event → ScalaLang → ScalaLang
log_done es sl = record sl { done = sl.done ++ es }

-- `onResolve`
unfoldable pub start_resolve : ScalaLang → ScalaLang
start_resolve sl = log_done (map on_resolve sl.symbol_providers) sl

-- `onEnd`
unfoldable pub finish : ScalaLang → ScalaLang
finish sl = log_done (map on_end sl.symbol_providers) sl

abbrev pub event_of : Work → Event
event_of w = resolved w.from w.rule

-- `scalaPackage.Resolve`: the rule is resolved, and once more later
unfoldable pub resolve_in : Str → List Work → Label → Rule → ScalaLang → ScalaLang
resolve_in rel work from r sl = if not r.has_provider then sl else record sl {
  packages = Map.put rel (work ++ record { from = from; rule = r } ∷ []) sl.packages;
  done = sl.done ++ resolved from r ∷ [];
}

-- `Finalize`, and `resolvePackageMarkerRule` around it
abbrev pub finalize : Option (List Work) → ScalaLang → ScalaLang
finalize none sl = sl
finalize (some work) sl = log_done (map event_of work) sl

-- `if sl.remainingPackages == 0`
abbrev pub finish_if_last : ScalaLang → ScalaLang
finish_if_last sl = if is_zero sl.remaining_packages then finish sl else sl

abbrev pub enter_phase : ScalaLang → ScalaLang
enter_phase sl =
    if not sl.is_resolve_phase then start_resolve (record sl { is_resolve_phase = true }) else sl

abbrev pub resolve_generated : Str → List Work → Label → Generated → ScalaLang → ScalaLang
resolve_generated rel work from (rule_of r) sl = resolve_in rel work from r sl
resolve_generated rel work from (marker own) sl =
    let sl' = finalize (Map.get own sl.packages) sl in
    record sl' { remaining_packages = decrement sl'.remaining_packages }

abbrev pub without_repo : Str → Label → Label
without_repo repo_name from = if from.repo == repo_name then record from { repo = [] } else from

-- a label without a package is not resolved
abbrev pub resolve_at : Option (List Work) → Label → Generated → ScalaLang → ScalaLang
resolve_at none from g sl = sl
resolve_at (some work) from g sl = finish_if_last (resolve_generated from.pkg work from g sl)

abbrev pub resolve_from : Label → Generated → ScalaLang → ScalaLang
resolve_from from g sl = resolve_at (Map.get from.pkg sl.packages) from g sl

-- `Resolve`, in a repository of a name
unfoldable pub resolve : Str → Label → Generated → ScalaLang → ScalaLang
resolve repo_name from g sl = resolve_from (without_repo repo_name from) g (enter_phase sl)
