-- ===== src/Provider/Source/Declared.antt =====
-- The names that the files of a rule declare, in the scope.
use scala_gazelle.Prelude.{
  nat_beq_iff, Str, str_has_eq, List, [], ◌∷◌, if◌then◌else◌, All, All-map, All-append, ◌++◌,
  is_nil, IsNotEmpty, Outcome, returned, panicked, Outcome-cases, ◌≡◌, refl, arith, inl, inr, sym,
  ap, ◌∙◌, subst,
}
use scala_gazelle.Label.{Label}
use scala_gazelle.Language.ScalaRule.{File}
use scala_gazelle.Collections.PathTrie.Named.{IsNamed}
use scala_gazelle.Resolver.Symbol.{
  ImportType, class, object, trait, type, value, Symbol, Ref, Store, new_symbol,
}
use scala_gazelle.Resolver.TrieScope
use scala_gazelle.Resolver.TrieScope.{TrieScope, put}
use scala_gazelle.Resolver.TrieScope.Update.Known.{IsKnown, Grows, Grows-put, IsKnown-put}
use scala_gazelle.Provider.{
  GlobalScope, put_in_scope, put_of_type, put_symbol, put_new_symbol, put_names,
}
use scala_gazelle.Provider.Source.{and_put, load_scala_file, load_scala_files}

-- kinds whose symbols go to the scope, which those of packages do not
abbrev IsScoped : ImportType → Type 0
IsScoped kind =
    (symbol : Ref) (g : GlobalScope)
    → put_of_type kind symbol g ≡ put_in_scope g (TrieScope.put_symbol symbol g.scope g.store)

-- the names are known after the step, and those before it still
abbrev Step : List Str → GlobalScope → GlobalScope → Type 0
Step names g g' = All (IsKnown g'.scope) names × Grows g.scope g'.scope

put_in_scope-view :
    (g g' : GlobalScope) (o : Outcome (TrieScope × Store))
    → put_in_scope g o ≡ returned g'
    → (p : TrieScope × Store) × ((o ≡ returned p) × (g'.scope ≡ p.0))
put_in_scope-view g g' panicked e = ground arith
put_in_scope-view g g' (returned p) e = (p, (refl, ground (arith, e)))

put_new_symbol_view :
    (kind : ImportType) (name provider : Str) (label : Label) (g : GlobalScope)
    → IsScoped kind
    → (g1 : GlobalScope) × (put_new_symbol kind name provider label g
        ≡ put_in_scope g1 (put name g.store.next g.scope g1.store))
unfolding put_new_symbol put_symbol new_symbol TrieScope.put_symbol
put_new_symbol_view kind name provider label g s =
    let n = g.store.next in
    let made = new_symbol kind name provider label g.store in
    let symbol : Symbol = record {
      kind = kind;
      name = name;
      label = label;
      provider = provider;
      conflicts = [];
      requires = [];
    } in
    let own : made.1.at n ≡ symbol =
      ap (λ b. if b then symbol else g.store.at n) ((nat_beq_iff n n).1 refl) in
    let g1 : GlobalScope = record g { store = made.1 } in
    (
      g1,
      ap (λ sy. put_of_type sy.kind n g1) own
          ∙ (s n g1 ∙ ap (λ sy. put_in_scope g1 (put sy.name n g.scope made.1)) own),
    )

Step-put_new_symbol :
    (kind : ImportType) (name provider : Str) (label : Label) (g g' : GlobalScope)
    → IsScoped kind
    → IsNotEmpty name
    → IsNamed g.scope.root
    → put_new_symbol kind name provider label g ≡ returned g'
    → Step (name ∷ []) g g'
Step-put_new_symbol kind name provider label g g' s e h p =
    let v = put_new_symbol_view kind name provider label g s in
    let w = put_in_scope-view v.0 g' (put name g.store.next g.scope v.0.store) (sym v.1 ∙ p) in
    let own : put name g.store.next g.scope v.0.store ≡ returned (w.0.0, w.0.1) = w.1.0 in
    (
      (
        ap (λ t. is_nil (TrieScope.get_symbol t name)) w.1.1
            ∙ IsKnown-put name g.store.next g.scope w.0.0 v.0.store w.0.1 h e own,
        tt,
      ),
      subst (Grows g.scope) (sym w.1.1)
          (Grows-put name g.store.next g.scope w.0.0 v.0.store w.0.1 h own),
    )

Grows-then : (t t1 t2 : TrieScope) → Grows t t1 → Grows t1 t2 → Grows t t2
Grows-then t t1 t2 a b = record {
  named = b.named;
  known = λ other k. b.known other (a.known other k);
}

Step-put_names :
    (kind : ImportType) (provider : Str) (label : Label) (names : List Str) (g g' : GlobalScope)
    → IsScoped kind
    → All IsNotEmpty names
    → IsNamed g.scope.root
    → put_names kind provider label names g ≡ returned g'
    → Step names g g'
unfolding put_names
Step-put_names kind provider label [] g g' s e h p =
    let same : g ≡ g' = ground (arith, p) in
    (tt, subst (λ x. Grows g.scope x.scope) same (record { named = h; known = λ other k. k }))
Step-put_names kind provider label (name ∷ names) g g' s e h p =
    elim (Outcome-cases (put_new_symbol kind name provider label g)) [
      | inl q ↦ ground (arith, p, q)
      | inr (g1, q) ↦
          let own = Step-put_new_symbol kind name provider label g g1 s e.0 h q in
          let rest =
            Step-put_names kind provider label names g1 g' s e.1 own.1.named
              (ground (arith, p, q)) in
          ((rest.1.known name own.0.0, rest.0), Grows-then g.scope g1.scope g'.scope own.1 rest.1)
    ]

-- a part of the program that makes names known, in each scope without empty parts
abbrev Makes : List Str → (GlobalScope → Outcome GlobalScope) → Type 0
Makes names f = (g g' : GlobalScope) → IsNamed g.scope.root → f g ≡ returned g' → Step names g g'

Makes-and_put :
    (xs ys : List Str) (f h : GlobalScope → Outcome GlobalScope)
    → Makes xs f
    → Makes ys h
    → Makes (xs ++ ys) (λ g. and_put (f g) h)
Makes-and_put xs ys f h a b g g' n p = elim (Outcome-cases (f g)) [
  | inl q ↦ ground (arith, p, ap (λ o. and_put o h) q)
  | inr (g1, q) ↦
      let first = a g g1 n q in
      let rest = b g1 g' first.1.named (sym (ap (λ o. and_put o h) q) ∙ p) in
      (
        All-append (IsKnown g'.scope) xs ys
            (All-map (IsKnown g1.scope) (IsKnown g'.scope) xs rest.1.known first.0) rest.0,
        Grows-then g.scope g1.scope g'.scope first.1 rest.1,
      )
]

abbrev pub declared : File → List Str
declared file = (((file.classes ++ file.objects) ++ file.traits) ++ file.types) ++ file.vals

-- no name of a file is empty
abbrev pub DeclaresNames : File → Type 0
DeclaresNames file =
    All IsNotEmpty file.classes
    × (All IsNotEmpty file.objects
        × (All IsNotEmpty file.traits × (All IsNotEmpty file.types × All IsNotEmpty file.vals)))

Makes-load_scala_file :
    (from : Label) (kind : Str) (file : File)
    → DeclaresNames file
    → Makes (declared file) (load_scala_file from kind file)
unfolding load_scala_file
Makes-load_scala_file from kind file e =
    let names : (k : ImportType) (xs : List Str)
        → IsScoped k
        → All IsNotEmpty xs
        → Makes xs (put_names k kind from xs) =
      λ k xs s h g g' n p. Step-put_names k kind from xs g g' s h n p in
    let classes = names class file.classes (λ x g. refl) e.0 in
    let objects = names object file.objects (λ x g. refl) e.1.0 in
    let traits = names trait file.traits (λ x g. refl) e.1.1.0 in
    let types = names type file.types (λ x g. refl) e.1.1.1.0 in
    let vals = names value file.vals (λ x g. refl) e.1.1.1.1 in
    Makes-and_put ((((file.classes ++ file.objects) ++ file.traits) ++ file.types)) file.vals
      (λ g.
        and_put
          (and_put
            (and_put (put_names class kind from file.classes g)
              (put_names object kind from file.objects))
            (put_names trait kind from file.traits))
          (put_names type kind from file.types))
      (put_names value kind from file.vals)
      (Makes-and_put ((file.classes ++ file.objects) ++ file.traits) file.types
        (λ g.
          and_put
            (and_put (put_names class kind from file.classes g)
              (put_names object kind from file.objects))
            (put_names trait kind from file.traits))
        (put_names type kind from file.types)
        (Makes-and_put (file.classes ++ file.objects) file.traits
          (λ g.
            and_put (put_names class kind from file.classes g)
              (put_names object kind from file.objects))
          (put_names trait kind from file.traits)
          (Makes-and_put file.classes file.objects (put_names class kind from file.classes)
            (put_names object kind from file.objects) classes objects)
          traits)
        types)
      vals

-- Let the scope have no empty parts, and let the files of a rule have no empty names. When they are
-- loaded, each class, object, trait, type and value that they declare leads to a symbol in the scope,
-- and each name that led to a symbol before still does.
pub load_scala_files-IsKnown :
    (from : Label) (kind : Str) (files : List File) (g g' : GlobalScope)
    → IsNamed g.scope.root
    → All DeclaresNames files
    → load_scala_files from kind files g ≡ returned g'
    → All (λ file. All (IsKnown g'.scope) (declared file)) files × Grows g.scope g'.scope
unfolding load_scala_files
load_scala_files-IsKnown from kind [] g g' h e p =
    let same : g ≡ g' = ground (arith, p) in
    (tt, subst (λ x. Grows g.scope x.scope) same (record { named = h; known = λ other k. k }))
load_scala_files-IsKnown from kind (file ∷ files) g g' h e p =
    elim (Outcome-cases (load_scala_file from kind file g)) [
      | inl q ↦ ground (arith, p, q)
      | inr (g1, q) ↦
          let own = Makes-load_scala_file from kind file e.0 g g1 h q in
          let rest =
            load_scala_files-IsKnown from kind files g1 g' own.1.named e.1 (ground (arith, p, q)) in
          (
            (
              All-map (IsKnown g1.scope) (IsKnown g'.scope) (declared file) rest.1.known own.0,
              rest.0,
            ),
            Grows-then g.scope g1.scope g'.scope own.1 rest.1,
          )
    ]
