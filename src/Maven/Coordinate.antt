-- ===== src/Maven/Coordinate.antt =====
-- pkg/maven/coordinate.go, and `CleanupLabelName` of pkg/bazel/bazel.go.
use scala_gazelle.Prelude.{
  ℕ, Str, str_has_eq, Bool, true, false, ◌&&◌, ◌||◌, Option, none, some, List, [], ◌∷◌, ◌==◌, codes,
  if◌then◌else◌, nat_beq, leb, join, split_byte, is_digit, ◌≡◌, refl, All, ap, Bool-cases, inl, inr,
  has_byte, split_byte-join,
}

pub record Coordinate : Type 0 where
  pub group_id : Str
  pub artifact_id : Str
  pub type : Str
  pub classifier : Str
  pub version : Str

abbrev last_part : Str → List Str → Str
last_part a [] = a
last_part a (b ∷ rest) = last_part b rest

abbrev pub coordinate_of : List Str → Option Coordinate
coordinate_of (g ∷ a ∷ v ∷ []) =
    some (record { group_id = g; artifact_id = a; type = []; classifier = []; version = v })
coordinate_of (g ∷ a ∷ t ∷ v ∷ []) =
    some (record { group_id = g; artifact_id = a; type = t; classifier = []; version = v })
coordinate_of (g ∷ a ∷ t ∷ c ∷ v ∷ rest) =
    some (record {
      group_id = g;
      artifact_id = a;
      type = t;
      classifier = c;
      version = last_part v rest;
    })
coordinate_of _ = none

-- `ParseCoordinate`; `none` is its error
unfoldable pub parse_coordinate : Str → Option Coordinate
parse_coordinate s = coordinate_of (split_byte 58 s)

-- `ArtifactString`
unfoldable pub artifact_string : Coordinate → Str
artifact_string c =
    if c.classifier == []
    then join (codes ":") (c.group_id ∷ c.artifact_id ∷ [])
    else join (codes ":") (c.group_id ∷ c.artifact_id ∷ c.classifier ∷ [])

-- `\w`
abbrev pub is_word : ℕ → Bool
is_word c = is_digit c || (leb 65 c && leb c 90) || (leb 97 c && leb c 122) || nat_beq c 95

-- `inside` a run of other bytes, which has its underscore already
abbrev cleanup_from : Bool → Str → Str
cleanup_from inside [] = []
cleanup_from true (c ∷ s) =
    let clean = cleanup_from false s in
    let rest = cleanup_from true s in if is_word c then c ∷ clean else rest
cleanup_from false (c ∷ s) =
    let clean = cleanup_from false s in
    let rest = cleanup_from true s in if is_word c then c ∷ clean else 95 ∷ rest

-- `CleanupLabelName`: every run of bytes that are no word is an underscore
unfoldable pub cleanup_label_name : Str → Str
cleanup_label_name s = cleanup_from false s

abbrev pub IsWord : Str → Type 0
IsWord s = All (λ c. is_word c ≡ true) s

cleanup_from-IsWord : (inside : Bool) (s : Str) → IsWord (cleanup_from inside s)
cleanup_from-IsWord inside [] = tt
cleanup_from-IsWord true (c ∷ s) = elim (Bool-cases (is_word c)) [
  | inl e ↦ rw e (e, cleanup_from-IsWord false s)
  | inr e ↦ rw e (cleanup_from-IsWord true s)
]
cleanup_from-IsWord false (c ∷ s) = elim (Bool-cases (is_word c)) [
  | inl e ↦ rw e (e, cleanup_from-IsWord false s)
  | inr e ↦ rw e (refl, cleanup_from-IsWord true s)
]

cleanup_from-word : (s : Str) → IsWord s → cleanup_from false s ≡ s
cleanup_from-word [] h = refl
cleanup_from-word (c ∷ s) h = rw h.0 (ap (◌∷◌ c) (cleanup_from-word s h.1))

-- A cleaned label name consists of letters, digits and underscores, and cleaning it again changes
-- nothing.
pub cleanup_label_name_lem :
    (s : Str)
    → IsWord (cleanup_label_name s)
      × (cleanup_label_name (cleanup_label_name s) ≡ cleanup_label_name s)
unfolding cleanup_label_name
cleanup_label_name_lem s = (
  cleanup_from-IsWord false s,
  cleanup_from-word (cleanup_from false s) (cleanup_from-IsWord false s),
)

-- The parts without colons of a coordinate are read as they were joined, and its artifact is named by
-- group, artifact and classifier, whatever the type and the version are.
pub artifact_string-parse_coordinate :
    (g a t c v : Str)
    → All (λ s. has_byte 58 s ≡ false) (g ∷ a ∷ t ∷ c ∷ v ∷ [])
    → (parse_coordinate (join (codes ":") (g ∷ a ∷ t ∷ c ∷ v ∷ []))
        ≡ some (record { group_id = g; artifact_id = a; type = t; classifier = c; version = v }))
      × (artifact_string
            (record { group_id = g; artifact_id = a; type = t; classifier = c; version = v })
          ≡ (if c == [] then join (codes ":") (g ∷ a ∷ []) else join (codes ":") (g ∷ a ∷ c ∷ [])))
      × (parse_coordinate (join (codes ":") (g ∷ a ∷ v ∷ []))
          ≡ some
              (record { group_id = g; artifact_id = a; type = []; classifier = []; version = v }))
unfolding parse_coordinate artifact_string
artifact_string-parse_coordinate g a t c v h = (
  rw (split_byte-join 58 g (a ∷ t ∷ c ∷ v ∷ []) h) refl,
  refl,
  rw (split_byte-join 58 g (a ∷ v ∷ []) (h.0, (h.1.0, (h.1.1.1.1.0, tt)))) refl,
)
