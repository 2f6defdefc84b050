-- ===== src/RuleConfig/Kept.antt =====
-- The maps of a rule's configuration, through its directives and its clone.
use scala_gazelle.Prelude.{
  Str, str_has_eq, Bool, true, false, Option, none, some, List, [], ◌∷◌, ◌++◌, Result, ok, failed,
  ◌≡◌, refl, arith, inl, inr, Bool-cases, Option-cases, fields, subst, contains-middle, ◌∙◌,
  append_assoc, append-nil, Distinct,
}
use scala_gazelle.Prelude.Map
use scala_gazelle.Prelude.Map.{
  Assoc, IsMap, put-IsMap, remove-IsMap, copy_into_new, put_new, keys-append,
}
use scala_gazelle.Collections.Intent.{Intent, parse_intent}
use scala_gazelle.RuleConfig.{
  RuleConfig, IsWellFormed, AreMaps, new_config, clone, copy_attrs, set_intent, values_of,
  set_enabled, apply_parameter, parse_attr, parse_directive, parameter, Parameter, parse_bool,
  DirectiveError, dep_parameter, option_parameter, attr_parameter, implementation_parameter,
  enabled_parameter, other_parameter,
}

set_intent-IsMap :
    (want : Bool) (value : Str) (m : Assoc Str Bool) → IsMap m → IsMap (set_intent want value m)
set_intent-IsMap true value m h = put-IsMap value true m h
set_intent-IsMap false value m h = remove-IsMap value m h

put-AreMaps :
    (name : Str) (vals : Assoc Str Bool) (attrs : Assoc Str (Assoc Str Bool))
    → IsMap vals
    → AreMaps attrs
    → AreMaps (Map.put name vals attrs)
put-AreMaps name vals [] h k = (h, tt)
put-AreMaps name vals ((n, v) ∷ attrs) h k = elim (Bool-cases (str_has_eq.same n name)) [
  | inl t ↦ rw t (h, k.1)
  | inr t ↦ rw t (k.0, put-AreMaps name vals attrs h k.1)
]

remove-AreMaps :
    (name : Str) (attrs : Assoc Str (Assoc Str Bool))
    → AreMaps attrs
    → AreMaps (Map.remove name attrs)
remove-AreMaps name [] k = tt
remove-AreMaps name ((n, v) ∷ attrs) k = elim (Bool-cases (str_has_eq.same n name)) [
  | inl t ↦ rw t (remove-AreMaps name attrs k.1)
  | inr t ↦ rw t (k.0, remove-AreMaps name attrs k.1)
]

values_of-IsMap :
    (name : Str) (attrs : Assoc Str (Assoc Str Bool))
    → AreMaps attrs
    → IsMap (values_of (Map.get name attrs))
values_of-IsMap name [] k = tt
values_of-IsMap name ((n, v) ∷ attrs) k = elim (Bool-cases (str_has_eq.same n name)) [
  | inl t ↦ rw t k.0
  | inr t ↦ rw t (values_of-IsMap name attrs k.1)
]

abbrev KeepsMaps : Result DirectiveError RuleConfig → Type 0
KeepsMaps (failed e) = Unit
KeepsMaps (ok c) = IsWellFormed c

parse_attr-KeepsMaps :
    (want : Bool) (value : Str) (fs : List Str) (c : RuleConfig)
    → IsWellFormed c
    → KeepsMaps (parse_attr want value fs c)
unfolding parse_attr
parse_attr-KeepsMaps want value [] c h = tt
parse_attr-KeepsMaps true value (name ∷ []) c h = tt
parse_attr-KeepsMaps false value (name ∷ []) c h =
    let key = (parse_intent name).value in
    (h.0, h.1, remove-IsMap key c.attrs h.2, remove-AreMaps key c.attrs h.3)
parse_attr-KeepsMaps false value (name ∷ v ∷ vs) c h =
    let key = (parse_intent name).value in
    (h.0, h.1, remove-IsMap key c.attrs h.2, remove-AreMaps key c.attrs h.3)
parse_attr-KeepsMaps true value (name ∷ v ∷ vs) c h =
    let key = (parse_intent name).value in
    (
      h.0,
      h.1,
      put-IsMap key _ c.attrs h.2,
      put-AreMaps key _ c.attrs (put-IsMap _ _ _ (values_of-IsMap key c.attrs h.3)) h.3,
    )

set_enabled-KeepsMaps :
    (value : Str) (o : Option Bool) (c : RuleConfig)
    → IsWellFormed c
    → KeepsMaps (set_enabled value o c)
set_enabled-KeepsMaps value none c h = tt
set_enabled-KeepsMaps value (some b) c h = h

apply_parameter-KeepsMaps :
    (p : Parameter) (intent : Intent) (value : Str) (c : RuleConfig)
    → IsWellFormed c
    → KeepsMaps (apply_parameter p intent value c)
apply_parameter-KeepsMaps dep_parameter intent value c h =
    (set_intent-IsMap intent.want value c.deps h.0, h.1, h.2, h.3)
apply_parameter-KeepsMaps option_parameter intent value c h =
    (h.0, set_intent-IsMap intent.want value c.options h.1, h.2, h.3)
apply_parameter-KeepsMaps attr_parameter intent value c h =
    parse_attr-KeepsMaps intent.want value (fields value) c h
apply_parameter-KeepsMaps implementation_parameter intent value c h = h
apply_parameter-KeepsMaps enabled_parameter intent value c h =
    set_enabled-KeepsMaps value (parse_bool value) c h
apply_parameter-KeepsMaps other_parameter intent value c h = tt

name-parse_attr :
    (want : Bool) (value : Str) (fs : List Str) (c c' : RuleConfig)
    → parse_attr want value fs c ≡ ok c'
    → c'.name ≡ c.name
unfolding parse_attr
name-parse_attr want value [] c c' e = ground arith
name-parse_attr want value (n ∷ []) c c' e = ground arith
name-parse_attr want value (n ∷ v ∷ vs) c c' e = ground arith

name-apply_parameter :
    (p : Parameter) (intent : Intent) (value : Str) (c c' : RuleConfig)
    → apply_parameter p intent value c ≡ ok c'
    → c'.name ≡ c.name
name-apply_parameter dep_parameter intent value c c' e = ground arith
name-apply_parameter option_parameter intent value c c' e = ground arith
name-apply_parameter attr_parameter intent value c c' e =
    name-parse_attr intent.want value (fields value) c c' e
name-apply_parameter implementation_parameter intent value c c' e = ground arith
name-apply_parameter enabled_parameter intent value c c' e =
    elim (Option-cases (parse_bool value)) [ inl q ↦ ground arith | inr (b, q) ↦ ground arith ]
name-apply_parameter other_parameter intent value c c' e = ground arith

-- A directive does not change the name.
pub name-parse_directive :
    (param value : Str) (c c' : RuleConfig)
    → parse_directive param value c ≡ ok c'
    → c'.name ≡ c.name
unfolding parse_directive
name-parse_directive param value c c' e =
    let intent = parse_intent param in
    name-apply_parameter (parameter intent.value) intent value c c' e

-- A directive that is accepted leaves each of the maps with every key once.
pub parse_directive-IsWellFormed :
    (param value : Str) (c c' : RuleConfig)
    → IsWellFormed c
    → parse_directive param value c ≡ ok c'
    → IsWellFormed c'
unfolding parse_directive
parse_directive-IsWellFormed param value c c' h e = subst KeepsMaps e (
    let intent = parse_intent param in
    apply_parameter-KeepsMaps (parameter intent.value) intent value c h)

copy_attrs_behind :
    (from to : Assoc Str (Assoc Str Bool))
    → IsMap (to ++ from)
    → AreMaps from
    → copy_attrs from to ≡ to ++ from
unfolding copy_attrs
copy_attrs_behind [] to h k = rw (append-nil to) refl
copy_attrs_behind ((name, vals) ∷ from) to h k =
    let separate : Distinct (Map.keys to ++ name ∷ Map.keys from) =
      subst Distinct (keys-append to ((name, vals) ∷ from)) h in
    rw
      (
        copy_into_new vals k.0,
        put_new name vals to (contains-middle name (Map.keys to) (Map.keys from) separate),
      )
      (copy_attrs_behind from (to ++ (name, vals) ∷ [])
          (rw (append_assoc to ((name, vals) ∷ []) from) h) k.1
        ∙ append_assoc to ((name, vals) ∷ []) from)

-- A clone has the maps, the implementation, the name and the flag of the configuration; it has neither
-- the directory nor the provider of it.
pub clone_lem : (c : RuleConfig) → IsWellFormed c → clone c ≡ record c { rel = []; provider = none }
unfolding clone new_config
clone_lem c h =
    rw (copy_attrs_behind c.attrs [] h.2 h.3, copy_into_new c.deps h.0, copy_into_new c.options h.1)
      refl
