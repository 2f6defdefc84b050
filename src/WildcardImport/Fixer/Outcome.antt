-- ===== src/WildcardImport/Fixer/Outcome.antt =====
-- What `fixFile` returns: it ends, and where it succeeds, the file builds as it is left.
use scala_gazelle.Prelude.{
  ℕ, zero, suc, ◌+◌, ◌<◌, Str, str_has_eq, some, List, [], length, All, nat_beq, Option-cases,
  Bool-cases, inl, inr, ◌≡◌, ◌≢◌, ◌⊎◌, arith,
}
use scala_gazelle.WildcardImport.TextFile.{TextFile, write, write_commented}
use scala_gazelle.WildcardImport.Scanner.{scan}
use scala_gazelle.WildcardImport.Fixer.{
  World, out_of_fuel, make_import_line, add_symbols, fix_rounds, fix_file,
}
use scala_gazelle.WildcardImport.Fixer.Rounds.{
  In, IsKnown, add_symbols-IsKnown, length-add_symbols_new, IsKnown-nil, length-IsKnown,
}

module _ (w : World) (tf : TextFile) (import_prefix : Str) where
  -- the build mentions no other symbols
  abbrev pub Mentions : List Str → Type 0
  Mentions known =
      (i : ℕ) (content : Str) (symbols : List Str)
      → scan (w.build i content).0 ≡ some symbols
      → All (In known) symbols

  fix_rounds-ends :
      (known : List Str) (fuel iteration : ℕ) (completion : List Str) (content : Str)
      → Mentions known
      → IsKnown known completion
      → length known < length completion + fuel
      → fix_rounds w tf import_prefix fuel iteration completion content ≢ out_of_fuel
  unfolding fix_rounds
  fix_rounds-ends known zero iteration completion content m k h =
      ground (arith, length-IsKnown known completion k)
  fix_rounds-ends known (suc fuel) iteration completion content m k h =
      elim (Bool-cases (nat_beq (w.build iteration content).1 0)) [
        | inl e ↦ ground (arith, e)
        | inr e ↦ elim (Option-cases (scan (w.build iteration content).0)) [
          | inl n ↦ ground (arith, e, n)
          | inr (symbols, n) ↦ elim (Bool-cases (add_symbols symbols completion).1) [
            | inr o ↦ ground (arith, e, n, o)
            | inl o ↦
                elim (Option-cases (
                  make_import_line import_prefix
                    (w.range iteration (add_symbols symbols completion).0))) [
                      | inl l ↦ ground (arith, e, n, o, l)
                      | inr (line, l) ↦ elim (Bool-cases (w.can_write iteration)) [
                        | inr c ↦ ground (arith, e, n, o, l, c)
                        | inl c ↦ λ q.
                            fix_rounds-ends known fuel (suc iteration)
                              (add_symbols symbols completion).0 (write line tf) m
                              (add_symbols-IsKnown known symbols completion
                                (m iteration content symbols n) k)
                              (ground (arith, length-add_symbols_new symbols completion o, h))
                              (ground (arith, e, n, o, l, c, q))
                      ]
                    ]
          ]
        ]
      ]

  -- how the loop left the file, with the symbols that it knew
  abbrev pub IsWritten : List Str → Str → Type 0
  IsWritten completion content =
      ((completion ≡ []) × (content ≡ write_commented tf))
      ⊎ ((i : ℕ) × (line : Str) × (make_import_line import_prefix (w.range i completion)
            ≡ some line)
          × (content ≡ write line tf))

  -- a result, with its build
  abbrev pub IsBuilt : List Str → Str → Type 0
  IsBuilt symbols content =
      (i : ℕ) × (completion : List Str) × ((w.build i content).1 ≡ 0)
      × (symbols ≡ w.range i completion)
      × IsWritten completion content

-- Let `known` have every symbol that the output of a build can name. Then `fixFile` ends within so
-- many rounds and one more.
pub fix_file-ends :
    (w : World) (tf : TextFile) (import_prefix : Str) (known : List Str) (fuel : ℕ) (content : Str)
    → Mentions w tf import_prefix known
    → length known < fuel
    → fix_file w tf import_prefix fuel content ≢ out_of_fuel
unfolding fix_file
fix_file-ends w tf import_prefix known fuel content m h =
    let rounds =
      fix_rounds-ends w tf import_prefix known fuel 1 [] (write_commented tf) m (IsKnown-nil known)
        (ground arith) in
    ground (arith, rounds)
