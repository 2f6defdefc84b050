-- ===== src/Resolver/LabelRewrite.antt =====
-- pkg/resolver/label_name_rewrite_spec.go: the label that a macro stands for.
use scala_gazelle.Prelude.{
  ℕ, zero, suc, Str, str_has_eq, false, not, ◌||◌, [], ◌∷◌, ◌++◌, ◌==◌, if◌then◌else◌, codes,
  has_prefix,
}
use scala_gazelle.Label.{Label}

pub record LabelNameRewriteSpec : Type 0 where
  pub src : Str
  pub dst : Str

abbrev pub name_token : Str
name_token = codes "%{name}"

-- strings.ReplaceAll(s, "%{name}", name); the number says how many bytes of a token are still to skip
unfoldable pub replace_name : ℕ → Str → Str → Str
replace_name n name [] = []
replace_name (suc n) name (c ∷ s) = replace_name n name s
replace_name zero name (c ∷ s) =
    let inside = replace_name 6 name s in
    let rest = replace_name zero name s in
    if has_prefix (c ∷ s) name_token then name ++ inside else c ∷ rest

-- `Rewrite`; the label that it makes is not relative
unfoldable pub rewrite : LabelNameRewriteSpec → Label → Label
rewrite m from = if not (m.src == from.name || m.src == name_token) then from else record {
  repo = from.repo;
  pkg = from.pkg;
  name = replace_name 0 from.name m.dst;
  relative = false;
}
