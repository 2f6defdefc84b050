-- ===== src/RuleConfig/Answers.antt =====
-- What the lists of a rule's configuration say of its maps.
use scala_gazelle.Prelude.{
  Str, str_has_eq, Bool, true, false, Option, none, some, List, [], ◌∷◌, ◌==◌, if◌then◌else◌, ok,
  ◌≡◌, refl, arith, inl, inr, Bool-cases, contains, join, codes, sort_by-SortedBy, SortedBy,
  contains-sort_by, str_eq_iff,
}
use scala_gazelle.Prelude.Map
use scala_gazelle.Prelude.Map.{Assoc, IsMap, get-missing, get-put, get-remove, map_laws}
use scala_gazelle.Collections.Intent.{Intent, parse_intent}
use scala_gazelle.RuleConfig.{
  RuleConfig, IsWellFormed, AreMaps, wanted, get_attr, values_of, parse_attr,
}

abbrev pub is_wanted : Option Bool → Bool
is_wanted none = false
is_wanted (some want) = want

-- the intent of a value of an attribute
abbrev pub attr_intent : RuleConfig → Str → Str → Option Bool
attr_intent c name value = Map.get value (values_of (Map.get name c.attrs))

contains-wanted :
    (v : Str) (m : Assoc Str Bool) → IsMap m → contains v (wanted m) ≡ is_wanted (Map.get v m)
unfolding wanted
contains-wanted v [] h = refl
contains-wanted v ((k, true) ∷ m) h =
    ground (arith, h.0, str_eq_iff k v, str_eq_iff v k, get-missing k m, contains-wanted v m h.1)
contains-wanted v ((k, false) ∷ m) h =
    ground (arith, h.0, str_eq_iff k v, str_eq_iff v k, get-missing k m, contains-wanted v m h.1)

values_of-IsMap :
    (name : Str) (attrs : Assoc Str (Assoc Str Bool))
    → AreMaps attrs
    → IsMap (values_of (Map.get name attrs))
values_of-IsMap name [] k = tt
values_of-IsMap name ((n, v) ∷ attrs) k = elim (Bool-cases (str_has_eq.same n name)) [
  | inl t ↦ rw t k.0
  | inr t ↦ rw t (values_of-IsMap name attrs k.1)
]

-- The values of an attribute are sorted, and a value is among them if its intent is positive.
pub get_attr_lem :
    (c : RuleConfig) (name value : Str)
    → IsWellFormed c
    → SortedBy (λ s. s) (get_attr c name)
      × (contains value (get_attr c name) ≡ is_wanted (attr_intent c name value))
unfolding get_attr
get_attr_lem c name value h =
    let vals = values_of (Map.get name c.attrs) in
    (
      sort_by-SortedBy (λ s. s) (wanted vals),
      ground (
        arith,
        contains-sort_by (λ s. s) value (wanted vals),
        contains-wanted value vals (values_of-IsMap name c.attrs h.3),
      ),
    )

-- what an attr directive leaves of the intents: at its attribute, its value has the intent of the name
-- in the directive; a negative directive takes the attribute away
abbrev pub next_intent : Bool → Intent → Str → RuleConfig → Str → Str → Option Bool
next_intent want key val c name value =
    if key.value == name
    then (if want then (if val == value then some key.want else attr_intent c name value) else none)
    else attr_intent c name value

intent-put :
    (key val : Str) (b : Bool) (attrs : Assoc Str (Assoc Str Bool)) (name value : Str)
    → Map.get value (
        values_of
          (Map.get name (Map.put key (Map.put val b (values_of (Map.get key attrs))) attrs)))
      ≡ (if key == name
          then (if val == value then some b else Map.get value (values_of (Map.get name attrs)))
          else Map.get value (values_of (Map.get name attrs)))
intent-put key val b attrs name value =
    let vals = values_of (Map.get key attrs) in
    ground (
      arith,
      str_eq_iff key name,
      get-put key name (Map.put val b vals) attrs,
      get-put val value b vals,
    )

intent-remove :
    (key : Str) (attrs : Assoc Str (Assoc Str Bool)) (name value : Str)
    → Map.get value (values_of (Map.get name (Map.remove key attrs)))
      ≡ (if key == name then none else Map.get value (values_of (Map.get name attrs)))
intent-remove key attrs name value = ground (arith, get-remove key name attrs)

-- After an attr directive with a value, the value has at the attribute the intent that its name was
-- written with, and the intents of all others are as before; or, if the directive is negative, the
-- attribute has no intents.
pub attr_intent-parse_attr :
    (want : Bool) (whole attr v : Str) (vs : List Str) (c c' : RuleConfig) (name value : Str)
    → parse_attr want whole (attr ∷ v ∷ vs) c ≡ ok c'
    → attr_intent c' name value
      ≡ next_intent want (parse_intent attr) (join (codes " ") (v ∷ vs)) c name value
unfolding parse_attr
attr_intent-parse_attr true whole attr v vs c c' name value e =
    let key = parse_intent attr in
    let val = join (codes " ") (v ∷ vs) in
    ground (arith, intent-put key.value val key.want c.attrs name value)
attr_intent-parse_attr false whole attr v vs c c' name value e =
    let key = parse_intent attr in ground (arith, intent-remove key.value c.attrs name value)
