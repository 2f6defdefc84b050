-- ===== src/Language/Setup/Registered.antt =====
-- What the registry of rules has after the set-up.
use scala_gazelle.Prelude.{
  ℕ, nat_beq, nat_beq_iff, Str, str_has_eq, str_eq_iff, Option, none, some, List, [], ◌∷◌, ◌++◌,
  codes, All, ok, Result-cases, Option-cases, Bool-cases, inl, inr, ◌≡◌, refl, arith, sym, ap, ◌∙◌,
}
use scala_gazelle.Prelude.Map
use scala_gazelle.Prelude.Map.{Assoc, get-put}
use scala_gazelle.Language.Setup.{
  register, ExistingProvider, Role, existing_provider, cons_first, split_percent,
  setup_existing_rules,
}

-- the rule is registered, by the parts of its name
pub record IsRegistered (role : Role) (registry : Assoc Str ExistingProvider) (fqn : Str)
    : Type 0 where
  pub load : Str
  pub kind : Str
  pub joined : load ++ (codes "%" ++ kind) ≡ fqn
  pub found : Map.get fqn registry ≡ some (existing_provider role load kind)

abbrev pub Extends : Assoc Str ExistingProvider → Assoc Str ExistingProvider → Type 0
Extends m m' = (k : Str) (p : ExistingProvider) → Map.get k m ≡ some p → Map.get k m' ≡ some p

joined-cons_first :
    (c : ℕ) (s load kind : Str) (o : Option (Str × Str))
    → ((l k : Str) → o ≡ some (l, k) → l ++ (codes "%" ++ k) ≡ s)
    → cons_first c o ≡ some (load, kind)
    → load ++ (codes "%" ++ kind) ≡ c ∷ s
joined-cons_first c s load kind none h e = ground arith
joined-cons_first c s load kind (some (l, k)) h e = ground (arith, e, h l k refl)

joined-split_percent :
    (s load kind : Str) → split_percent s ≡ some (load, kind) → load ++ (codes "%" ++ kind) ≡ s
unfolding split_percent
joined-split_percent [] load kind e = ground arith
joined-split_percent (c ∷ s) load kind e = elim (Bool-cases (nat_beq c 37)) [
  | inl q ↦ ground (arith, e, q, nat_beq_iff c 37)
  | inr q ↦
      joined-cons_first c s load kind (split_percent s) (joined-split_percent s)
        (ground (arith, e, q))
]

Extends-register :
    (name : Str) (p : ExistingProvider) (m m' : Assoc Str ExistingProvider)
    → register name p m ≡ ok m'
    → (Map.get name m' ≡ some p) × Extends m m'
unfolding register
Extends-register name p m m' e = elim (Option-cases (Map.get name m)) [
  | inl q ↦
      let same : Map.put name p m ≡ m' = ground (arith, e, q) in
      (
        ap (Map.get name) (sym same) ∙ ground (arith, get-put name name p m, str_eq_iff name name),
        (λ k v h.
            ap (Map.get k) (sym same)
            ∙ ground (arith, h, q, get-put name k p m, str_eq_iff name k)),
      )
  | inr (old, q) ↦ ground (arith, e, q)
]

-- Let the flags for a role be set up without an error. Then each rule that they name has an
-- implementation of this role under its name, with the load and the kind that this name joins; and
-- whatever was registered before is registered still.
pub setup_existing_rules-IsRegistered :
    (role : Role) (rules : List Str) (m m' : Assoc Str ExistingProvider)
    → setup_existing_rules role rules m ≡ ok m'
    → All (IsRegistered role m') rules × Extends m m'
unfolding setup_existing_rules
setup_existing_rules-IsRegistered role [] m m' e =
    let same : m ≡ m' = ground (arith, e) in (tt, (λ k p h. ap (Map.get k) (sym same) ∙ h))
setup_existing_rules-IsRegistered role (fqn ∷ rules) m m' e =
    elim (Option-cases (split_percent fqn)) [
      | inl q ↦ ground (arith, e, q)
      | inr ((load, kind), q) ↦
          let made = existing_provider role load kind in
          elim (Result-cases (register fqn made m)) [
            | inl (err, t) ↦ ground (arith, e, q, t)
            | inr (m1, t) ↦
                let own = Extends-register fqn made m m1 t in
                let rest =
                  setup_existing_rules-IsRegistered role rules m1 m' (ground (arith, e, q, t)) in
                (
                  (
                    record {
                      load = load;
                      kind = kind;
                      joined = joined-split_percent fqn load kind q;
                      found = rest.1 fqn made own.0;
                    },
                    rest.0,
                  ),
                  (λ k p h. rest.1 k p (own.1 k p h)),
                )
          ]
    ]
