-- ===== src/Prelude/Path.antt =====
-- filepath.Join and path.Join, on slashes.
use mathlib.Core.Path.{◌≡◌, refl}
use mathlib.Core.Bool.{Bool, false, ◌||◌}
use mathlib.Core.List.{List, [], ◌∷◌, ◌++◌}
use scala_gazelle.Prelude.Tests.{◌==◌, if◌then◌else◌, nat_beq}
use scala_gazelle.Prelude.Text.{Str, str_has_eq, codes, join}
use scala_gazelle.Prelude.Fields.{split_byte}

abbrev up : Bool → List Str → List Str
up rooted [] = if rooted then [] else codes ".." ∷ []
up rooted (p ∷ before) = if p == codes ".." then codes ".." ∷ p ∷ before else before

-- One part of a path, behind those before, which stand in reverse: `..` takes the part before away,
-- unless that is `..` as well; at the root it goes.
abbrev add_part : Bool → Str → List Str → List Str
add_part rooted p before =
    if p == [] || p == codes "."
    then before
    else if p == codes ".."
    then up rooted before
    else p ∷ before

abbrev clean_parts : Bool → List Str → List Str → List Str
clean_parts rooted before [] = before
clean_parts rooted before (p ∷ ps) = clean_parts rooted (add_part rooted p before) ps

abbrev reverse_parts : List Str → List Str → List Str
reverse_parts [] done = done
reverse_parts (p ∷ ps) done = reverse_parts ps (p ∷ done)

abbrev is_rooted : Str → Bool
is_rooted [] = false
is_rooted (c ∷ s) = nat_beq c 47

-- filepath.Clean
unfoldable pub clean_path : Str → Str
clean_path s =
    let rooted = is_rooted s in
    let parts = reverse_parts (clean_parts rooted [] (split_byte 47 s)) [] in
    if rooted
    then codes "/" ++ join (codes "/") parts
    else (if join (codes "/") parts == [] then codes "." else join (codes "/") parts)

-- filepath.Join of two parts
unfoldable pub join_path : Str → Str → Str
join_path [] [] = []
join_path [] (c ∷ t) = clean_path (c ∷ t)
join_path (c ∷ s) [] = clean_path (c ∷ s)
join_path (c ∷ s) (d ∷ t) = clean_path ((c ∷ s) ++ (codes "/" ++ d ∷ t))

joined_paths :
    (join_path (codes "a/b") (codes "../c.scala") ≡ codes "a/c.scala")
    × (join_path [] (codes "c.scala") ≡ codes "c.scala")
    × (join_path (codes "/") (codes "./c") ≡ codes "/c")
unfolding join_path clean_path split_byte
joined_paths = (refl, refl, refl)
