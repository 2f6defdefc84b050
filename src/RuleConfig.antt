-- ===== src/RuleConfig.antt =====
-- pkg/scalarule/config.go: what the directives say of one rule. A map from a name to an intent is an
-- association list.

pub mod Kept
pub mod Answers
use scala_gazelle.Prelude.{
  Str, str_has_eq, Bool, true, false, Option, none, some, List, [], ◌∷◌, ◌==◌, if◌then◌else◌, codes,
  contains, join, fields, sort_by, Result, ok, failed,
}
use scala_gazelle.Prelude.Map
use scala_gazelle.Prelude.Map.{Assoc, IsMap}
use scala_gazelle.Collections.Intent.{Intent, parse_intent}

-- the provider is the name under which it is found
pub record RuleConfig : Type 0 where
  pub rel : Str
  pub deps : Assoc Str Bool
  pub attrs : Assoc Str (Assoc Str Bool)
  pub options : Assoc Str Bool
  pub enabled : Bool
  pub implementation : Str
  pub provider : Option Str
  pub name : Str

-- `NewConfig`
unfoldable pub new_config : Str → RuleConfig
new_config name = record {
  rel = [];
  deps = [];
  attrs = [];
  options = [];
  enabled = true;
  implementation = [];
  provider = none;
  name = name;
}

-- the loop of `GetDeps`, `GetOptions` and `GetAttr`
unfoldable pub wanted : Assoc Str Bool → List Str
wanted [] = []
wanted ((k, want) ∷ m) = let rest = wanted m in if want then k ∷ rest else rest

unfoldable pub get_deps : RuleConfig → List Str
get_deps c = sort_by (λ s. s) (wanted c.deps)

unfoldable pub get_options : RuleConfig → List Str
get_options c = sort_by (λ s. s) (wanted c.options)

-- a nil map has no entries
abbrev pub values_of : Option (Assoc Str Bool) → Assoc Str Bool
values_of none = []
values_of (some m) = m

unfoldable pub get_attr : RuleConfig → Str → List Str
get_attr c name = sort_by (λ s. s) (wanted (values_of (Map.get name c.attrs)))

-- the loop over `c.Attrs` of `Clone`
unfoldable pub copy_attrs :
    Assoc Str (Assoc Str Bool) → Assoc Str (Assoc Str Bool) → Assoc Str (Assoc Str Bool)
copy_attrs [] to = to
copy_attrs ((name, vals) ∷ from) to = copy_attrs from (Map.put name (Map.copy_into vals []) to)

-- `Clone`
unfoldable pub clone : RuleConfig → RuleConfig
unfolding new_config
clone c = record (new_config c.name) {
  enabled = c.enabled;
  implementation = c.implementation;
  attrs = copy_attrs c.attrs [];
  deps = Map.copy_into c.deps [];
  options = Map.copy_into c.options [];
}

-- strconv.ParseBool; `none` is its error
unfoldable pub parse_bool : Str → Option Bool
parse_bool s =
    if contains s
      (codes "1" ∷ codes "t" ∷ codes "T" ∷ codes "TRUE" ∷ codes "true" ∷ codes "True" ∷ [])
    then some true
    else if contains s
        (codes "0" ∷ codes "f" ∷ codes "F" ∷ codes "FALSE" ∷ codes "false" ∷ codes "False" ∷ [])
    then some false
    else none

pub data DirectiveError : Type 0 where
  missing_attr_name : Str → DirectiveError
  missing_attr_value : Str → DirectiveError
  bad_enabled : Str → DirectiveError
  unknown_parameter : Str → DirectiveError

-- the keys that `switch intent.Value` tells apart
pub data Parameter : Type 0 where
  dep_parameter option_parameter attr_parameter implementation_parameter enabled_parameter :
      Parameter
  other_parameter : Parameter

unfoldable pub parameter : Str → Parameter
parameter value =
    if contains value (codes "dep" ∷ codes "deps" ∷ [])
    then dep_parameter
    else if value == codes "option"
    then option_parameter
    else if value == codes "attr"
    then attr_parameter
    else if value == codes "implementation"
    then implementation_parameter
    else if value == codes "enabled"
    then enabled_parameter
    else other_parameter

abbrev pub set_intent : Bool → Str → Assoc Str Bool → Assoc Str Bool
set_intent want value m = if want then Map.put value true m else Map.remove value m

-- `case "attr"`, of the fields of the value
unfoldable pub parse_attr : Bool → Str → List Str → RuleConfig → Result DirectiveError RuleConfig
parse_attr want value [] c = failed (missing_attr_name value)
parse_attr want value (name ∷ []) c =
    if want
    then failed (missing_attr_value value)
    else ok (record c { attrs = Map.remove (parse_intent name).value c.attrs })
parse_attr want value (name ∷ v ∷ vs) c =
    let key = parse_intent name in
    let val = join (codes " ") (v ∷ vs) in
    if want
    then ok (record c {
      attrs =
          Map.put key.value (Map.put val key.want (values_of (Map.get key.value c.attrs))) c.attrs;
    })
    else ok (record c { attrs = Map.remove key.value c.attrs })

abbrev pub set_enabled : Str → Option Bool → RuleConfig → Result DirectiveError RuleConfig
set_enabled value none c = failed (bad_enabled value)
set_enabled value (some b) c = ok (record c { enabled = b })

-- the cases of the switch
abbrev pub apply_parameter :
    Parameter → Intent → Str → RuleConfig → Result DirectiveError RuleConfig
apply_parameter dep_parameter intent value c =
    ok (record c { deps = set_intent intent.want value c.deps })
apply_parameter option_parameter intent value c =
    ok (record c { options = set_intent intent.want value c.options })
apply_parameter attr_parameter intent value c = parse_attr intent.want value (fields value) c
apply_parameter implementation_parameter intent value c = ok (record c { implementation = value })
apply_parameter enabled_parameter intent value c = set_enabled value (parse_bool value) c
apply_parameter other_parameter intent value c = failed (unknown_parameter intent.value)

-- `ParseDirective`
unfoldable pub parse_directive : Str → Str → RuleConfig → Result DirectiveError RuleConfig
parse_directive param value c =
    let intent = parse_intent param in apply_parameter (parameter intent.value) intent value c

-- each map has every key once
abbrev pub AreMaps : Assoc Str (Assoc Str Bool) → Type 0
AreMaps [] = Unit
AreMaps ((name, vals) ∷ attrs) = IsMap vals × AreMaps attrs

abbrev pub IsWellFormed : RuleConfig → Type 0
IsWellFormed c = IsMap c.deps × IsMap c.options × IsMap c.attrs × AreMaps c.attrs
