-- ===== src/Label.antt =====
-- The parts of package label of bazel-gazelle that the program reads. The struct has the fields that
-- the program names; its functions and `NoLabel` are parameters.
use scala_gazelle.Prelude.{
  Str, str_has_eq, str_eq, str_eq_iff, Eq, ◌≡◌, ◌↔◌, Bool, true, false, ◌&&◌, Option, arith,
}

pub record Label : Type 0 where
  pub repo : Str
  pub pkg : Str
  pub name : Str
  pub relative : Bool

abbrev bool_eq : Bool → Bool → Bool
bool_eq true b = b
bool_eq false true = false
bool_eq false false = true

-- `==` on the struct
unfoldable pub label_eq : Label → Label → Bool
label_eq a b =
    str_eq a.repo b.repo
    && (str_eq a.pkg b.pkg && (str_eq a.name b.name && bool_eq a.relative b.relative))

label_eq-eq : (a b : Label) → label_eq a b ≡ true → a ≡ b
unfolding label_eq
label_eq-eq a b h =
    ground (arith, str_eq_iff a.repo b.repo, str_eq_iff a.pkg b.pkg, str_eq_iff a.name b.name)

label_eq-of_eq : (a b : Label) → a ≡ b → label_eq a b ≡ true
unfolding label_eq
label_eq-of_eq a b h =
    ground (arith, str_eq_iff a.repo b.repo, str_eq_iff a.pkg b.pkg, str_eq_iff a.name b.name)

pub label_eq_iff : (a b : Label) → (label_eq a b ≡ true) ↔ (a ≡ b)
label_eq_iff a b = (label_eq-eq a b, label_eq-of_eq a b)

instance abbrev pub label_has_eq : Eq Label
label_has_eq = record { same = label_eq; same_iff = label_eq_iff }

-- What the program calls of the package.
pub record LabelApi : Type 0 where
  pub no_label : Label
  -- `Label.Rel(repo, pkg)`
  pub rel : Label → Str → Str → Label
  -- `Label.String()`
  pub to_string : Label → Str
  -- `Parse`; `none` is its error
  pub parse : Str → Option Label
