-- ===== src/Resolver/Symbol.antt =====
-- pkg/resolver/symbol.go. Symbols are shared by pointer, and `Conflict` writes through one: a symbol
-- stands in a store, and a reference to it is its address there.
use scala_gazelle.Prelude.{
  ℕ, suc, Str, List, [], ◌∷◌, ◌++◌, map, nat_beq, nat_has_eq, ◌==◌, if◌then◌else◌, contains, ◌≡◌,
  arith, contains-append, Distinct, Distinct-snoc, ◌||◌, nat_beq_iff, fun_ext, Bool-cases, inl, inr,
}
use mathlib.Core.List.{map-append}
use scala_gazelle.Label.{Label, label_has_eq, label_eq_iff}

-- enum ImportType of build/stack/gazelle/scala/parse/import.proto
-- (`package_type` is PACKAGE: the word is reserved here.)
pub data ImportType : Type 0 where
  import_type_unknown package_type class interface trait object value override cross_resolve
        platform type proto_enum proto_enum_field proto_message proto_service proto_package :
      ImportType

abbrev pub Ref : Type 0
Ref = ℕ

pub record Symbol : Type 0 where
  pub kind : ImportType
  pub name : Str
  pub label : Label
  pub provider : Str
  pub conflicts : List Ref
  pub requires : List Ref

-- The symbols that have been allocated stand below `next`.
pub record Store : Type 0 where
  pub at : Ref → Symbol
  pub next : Ref

-- *p = s
abbrev pub write : Ref → Symbol → Store → Store
write p s store = record store { at = λ q. if nat_beq p q then s else store.at q }

-- `NewSymbol`
unfoldable pub new_symbol : ImportType → Str → Str → Label → Store → Ref × Store
new_symbol kind name provider label store = (
  store.next,
  record (write store.next
      (record {
        kind = kind;
        name = name;
        label = label;
        provider = provider;
        conflicts = [];
        requires = [];
      })
      store) { next = suc store.next },
)

-- `Require`
unfoldable pub require : Ref → Ref → Store → Store
require s sym store =
    write s (record (store.at s) { requires = (store.at s).requires ++ sym ∷ [] }) store

-- the labels of a symbol's conflicts
abbrev pub conflict_labels : Store → Ref → List Label
conflict_labels store s = map (λ c. (store.at c).label) (store.at s).conflicts

-- `Conflict`: a symbol from a label that is listed already is not added
unfoldable pub conflict : Ref → Ref → Store → Store
conflict s sym store =
    if contains (store.at sym).label (conflict_labels store s)
    then store
    else write s (record (store.at s) { conflicts = (store.at s).conflicts ++ sym ∷ [] }) store

-- writing through one reference leaves the labels of all symbols as they were
label-conflict :
    (s sym c : Ref) (store : Store) → ((conflict s sym store).at c).label ≡ (store.at c).label
unfolding conflict
label-conflict s sym c store = ground (arith, nat_beq_iff s c)

conflicts-conflict :
    (s sym : Ref) (store : Store)
    → ((conflict s sym store).at s).conflicts ≡ (
        if contains (store.at sym).label (conflict_labels store s)
        then (store.at s).conflicts
        else (store.at s).conflicts ++ sym ∷ [])
unfolding conflict
conflicts-conflict s sym store = ground (arith, nat_beq_iff s s)

-- the labels of the conflicts after a `Conflict`
pub conflict_labels_lem :
    (s sym : Ref) (store : Store)
    → conflict_labels (conflict s sym store) s ≡ (
        if contains (store.at sym).label (conflict_labels store s)
        then conflict_labels store s
        else conflict_labels store s ++ (store.at sym).label ∷ [])
conflict_labels_lem s sym store =
    rw (fun_ext (λ c. label-conflict s sym c store), conflicts-conflict s sym store)
      (elim (Bool-cases (contains (store.at sym).label (conflict_labels store s))) [
        | inl listed ↦ rw listed
        | inr new ↦ rw new (map-append (λ c. (store.at c).label) (store.at s).conflicts (sym ∷ []))
      ])

-- After `Conflict` the labels of the conflicts are those that were listed and the label of the new
-- symbol: none is lost, and the new one is there.
pub contains-conflict_labels :
    (s sym : Ref) (store : Store) (l : Label)
    → contains l (conflict_labels (conflict s sym store) s)
      ≡ (contains l (conflict_labels store s) || l == (store.at sym).label)
contains-conflict_labels s sym store l =
    let new : Label = (store.at sym).label in
    let old = conflict_labels store s in
    rw conflict_labels_lem (ground (arith, contains-append l old (new ∷ []), label_eq_iff l new))

-- `Conflict` adds to the conflicts of its symbol alone: no other symbol changes, and of this one
-- nothing but the conflicts.
pub conflict_frame :
    (s sym q : Ref) (store : Store)
    → (conflict s sym store).at q ≡ (
        if nat_beq s q
        then record (store.at s) { conflicts = ((conflict s sym store).at s).conflicts }
        else store.at q)
unfolding conflict
conflict_frame s sym q store = ground (arith, nat_beq_iff s q, nat_beq_iff s s)

-- No label is listed twice among the conflicts of a symbol, if none was.
pub conflict-Distinct :
    (s sym : Ref) (store : Store)
    → Distinct (conflict_labels store s)
    → Distinct (conflict_labels (conflict s sym store) s)
conflict-Distinct s sym store h =
    elim (Bool-cases (contains (store.at sym).label (conflict_labels store s))) [
      | inl listed ↦ rw (conflict_labels_lem, listed) h
      | inr new ↦
          rw (conflict_labels_lem, new)
            (Distinct-snoc (store.at sym).label (conflict_labels store s) h new)
    ]
