-- ===== src/ScalaConfig/State/Inherit.antt =====
-- What a package has from the configuration of its parent directory.
use scala_gazelle.Prelude.{
  Str, str_has_eq, none, [], ◌∷◌, ◌++◌, ◌≡◌, refl, ◌∙◌, append-nil, append_assoc, Distinct,
  contains-middle,
}
use scala_gazelle.Prelude.Map
use scala_gazelle.Prelude.Map.{Assoc, copy_into_new, put_new, keys-append}
use scala_gazelle.RuleConfig.{RuleConfig}
use scala_gazelle.RuleConfig.Kept.{clone_lem}
use scala_gazelle.ScalaConfig.State.{
  Config, annotation_has_eq, new, clone, clone_rules, AreRules, IsConsistent,
}

-- a rule without the directory and the provider
abbrev pub fresh_rules : Assoc Str RuleConfig → Assoc Str RuleConfig
fresh_rules [] = []
fresh_rules ((k, r) ∷ rules) = (k, record r { rel = []; provider = none }) ∷ fresh_rules rules

clone_rules_behind :
    (from to : Assoc Str RuleConfig)
    → Distinct (Map.keys to ++ Map.keys from)
    → AreRules from
    → clone_rules from to ≡ to ++ fresh_rules from
unfolding clone_rules
clone_rules_behind [] to h k = rw (append-nil to) refl
clone_rules_behind ((name, r) ∷ from) to h k =
    let fresh : RuleConfig = record r { rel = []; provider = none } in
    let next : Distinct (Map.keys (to ++ (name, fresh) ∷ []) ++ Map.keys from) =
      rw
        (
          keys-append to ((name, fresh) ∷ []),
          append_assoc (Map.keys to) (name ∷ []) (Map.keys from),
        )
        h in
    rw
      (
        clone_lem r k.1,
        put_new name fresh to (contains-middle name (Map.keys to) (Map.keys from) h),
      )
      (clone_rules_behind from (to ++ (name, fresh) ∷ []) next k.2
        ∙ append_assoc to ((name, fresh) ∷ []) (fresh_rules from))

-- A clone differs from the configuration in its directory and in that its rules have no directory and
-- no provider; it has everything else, the annotations and the arrays of the lists included.
pub clone-IsConsistent :
    {R D : Type 0} (c : Config R D) (rel : Str)
    → IsConsistent c
    → clone c rel ≡ record c { rel = rel; rules = fresh_rules c.rules }
unfolding clone new
clone-IsConsistent c rel h =
    rw
      (
        clone_rules_behind c.rules [] h.0 h.1,
        copy_into_new c.annotations h.3,
        copy_into_new c.label_name_rewrites h.2,
      )
      refl
