-- ===== src/Language/Lifecycle/Order.antt =====
-- The order in which a run over directories does things.
use scala_gazelle.Prelude.{
  ℕ, suc, ◌+◌, ap₂, Str, str_has_eq, str_eq_iff, true, false, some, List, [], ◌∷◌, ◌++◌, map, ◌≡◌,
  refl, arith, sym, ap, ◌∙◌, append-nil, append_assoc, codes, contains, Distinct, All, length,
}
use scala_gazelle.Prelude.Map
use scala_gazelle.Prelude.Map.{Assoc, get-put, put-put, put_same}
use scala_gazelle.Label.{Label}
use scala_gazelle.Language.Lifecycle.{
  pos, increment, Generated, marker, Event, on_resolve, on_end, Work, ScalaLang, new_lang,
  generate_rules, start_resolve, finish, event_of, enter_phase, without_repo, resolve_from, resolve,
}
use scala_gazelle.Language.Lifecycle.Steps.{
  Visited, generate_all, label_in, Calls, rule_calls, calls_of, resolve_all, work_of, two_cycles,
  visited, resolve_all-visited,
}

-- the directories that are left have packages without work
abbrev AreFresh : List Visited → ScalaLang → Type 0
AreFresh vs sl = All (λ v. Map.get v.rel sl.packages ≡ some []) vs

abbrev pub rels : List Visited → List Str
rels vs = map (λ v. v.rel) vs

AreFresh-put :
    (rel : Str) (w : List Work) (vs : List Visited) (packages : Assoc Str (List Work))
    → contains rel (rels vs) ≡ false
    → All (λ v. Map.get v.rel packages ≡ some []) vs
    → All (λ v. Map.get v.rel (Map.put rel w packages) ≡ some []) vs
AreFresh-put rel w [] packages d h = tt
AreFresh-put rel w (v ∷ vs) packages d h = (
  ground (arith, get-put rel v.rel w packages, h.0, str_eq_iff rel v.rel),
  AreFresh-put rel w vs packages (ground arith) h.1,
)

regroup :
    (s e rest ends : List Event)
    → (s ++ (e ++ e)) ++ (rest ++ ends) ≡ s ++ ((e ++ (e ++ rest)) ++ ends)
regroup s e rest ends = simp append_assoc

done-resolve_all :
    (repo : Str) (v : Visited) (vs : List Visited) (sl : ScalaLang)
    → sl.is_resolve_phase ≡ true
    → sl.remaining_packages ≡ pos (suc (length vs))
    → Distinct (rels (v ∷ vs))
    → AreFresh (v ∷ vs) sl
    → (resolve_all repo (calls_of repo (v ∷ vs)) sl).done
      ≡ sl.done ++ (two_cycles (v ∷ vs) ++ map on_end sl.symbol_providers)
unfolding finish
done-resolve_all repo v [] sl p z d h =
    let e = map event_of (work_of v.rel v.rules) in
    ap (λ st. st.done) (resolve_all-visited repo v [] 0 sl p z h.0)
    ∙ (append_assoc sl.done (e ++ e) (map on_end sl.symbol_providers)
        ∙ ap (λ r. sl.done ++ ((e ++ r) ++ map on_end sl.symbol_providers)) (sym (append-nil e)))
done-resolve_all repo v (v' ∷ vs) sl p z d h =
    let work = work_of v.rel v.rules in
    let n = suc (length vs) in
    ap (λ st. st.done) (resolve_all-visited repo v (calls_of repo (v' ∷ vs)) n sl p z h.0)
    ∙ done-resolve_all repo v' vs (visited v n sl) p refl d.1
        (AreFresh-put v.rel work (v' ∷ vs) sl.packages d.0 h.1)
    ∙ regroup sl.done (map event_of work) (two_cycles (v' ∷ vs)) (map on_end sl.symbol_providers)

enter_phase-enter_phase : (sl : ScalaLang) → enter_phase (enter_phase sl) ≡ enter_phase sl
unfolding start_resolve
enter_phase-enter_phase sl = ground arith

resolve-enter_phase :
    (repo : Str) (from : Label) (g : Generated) (sl : ScalaLang)
    → resolve repo from g sl ≡ resolve repo from g (enter_phase sl)
unfolding resolve
resolve-enter_phase repo from g sl =
    ap (resolve_from (without_repo repo from) g) (sym (enter_phase-enter_phase sl))

resolve_all-enter_phase :
    (repo : Str) (xs : Calls) (y : Label × Generated) (ys : Calls) (sl : ScalaLang)
    → resolve_all repo (xs ++ y ∷ ys) sl ≡ resolve_all repo (xs ++ y ∷ ys) (enter_phase sl)
resolve_all-enter_phase repo [] (from, g) ys sl =
    ap (resolve_all repo ys) (resolve-enter_phase repo from g sl)
resolve_all-enter_phase repo ((from, g) ∷ xs) y ys sl =
    ap (resolve_all repo (xs ++ y ∷ ys)) (resolve-enter_phase repo from g sl)

-- what the generation leaves as it was
abbrev SameRun : ScalaLang → ScalaLang → Type 0
SameRun a b =
    (a.is_resolve_phase ≡ b.is_resolve_phase)
    × (a.done ≡ b.done)
    × (a.symbol_providers ≡ b.symbol_providers)

generate_all-SameRun : (vs : List Visited) (sl : ScalaLang) → SameRun (generate_all vs sl) sl
unfolding generate_rules
generate_all-SameRun [] sl = (refl, refl, refl)
generate_all-SameRun (v ∷ vs) sl =
    generate_all-SameRun vs (generate_rules v.rel true false v.rules sl).0

remaining-generate_all :
    (vs : List Visited) (sl : ScalaLang) (k : ℕ)
    → sl.remaining_packages ≡ pos k
    → (generate_all vs sl).remaining_packages ≡ pos (length vs + k)
unfolding generate_rules
remaining-generate_all [] sl k h = ground arith
remaining-generate_all (v ∷ vs) sl k h =
    let next = (generate_rules v.rel true false v.rules sl).0 in
    remaining-generate_all vs next (suc k) (ap increment h) ∙ ap pos (omega arith)

packages-generate_all :
    (rel : Str) (vs : List Visited) (sl : ScalaLang)
    → Map.get rel sl.packages ≡ some []
    → Map.get rel (generate_all vs sl).packages ≡ some []
unfolding generate_rules
packages-generate_all rel [] sl h = h
packages-generate_all rel (v ∷ vs) sl h =
    packages-generate_all rel vs (generate_rules v.rel true false v.rules sl).0
      (ground (arith, get-put v.rel rel [] sl.packages, h))

generate_all-AreFresh : (vs : List Visited) (sl : ScalaLang) → AreFresh vs (generate_all vs sl)
unfolding generate_rules
generate_all-AreFresh [] sl = tt
generate_all-AreFresh (v ∷ vs) sl =
    let next = (generate_rules v.rel true false v.rules sl).0 in
    (
      packages-generate_all v.rel vs next
          (ground (arith, get-put v.rel v.rel [] sl.packages, str_eq_iff v.rel v.rel)),
      generate_all-AreFresh vs next,
    )

-- Let gazelle visit some directories, generate the rules of each, and then resolve what was generated
-- directory by directory, the marker of a directory last. Then the hooks of the symbol providers for
-- the resolve phase run once and first; in each directory every rule with a provider is resolved, in
-- the order of the rules, and then once more in this order, under labels without a repository; and
-- the hooks for the end run once, behind everything.
pub done-resolve_all-generate_all :
    (repo : Str) (providers : List Str) (v : Visited) (vs : List Visited)
    → Distinct (rels (v ∷ vs))
    → (resolve_all repo (calls_of repo (v ∷ vs)) (generate_all (v ∷ vs) (new_lang providers))).done
      ≡ map on_resolve providers ++ (two_cycles (v ∷ vs) ++ map on_end providers)
unfolding start_resolve
done-resolve_all-generate_all repo providers v vs d =
    let made = generate_all (v ∷ vs) (new_lang providers) in
    let same = generate_all-SameRun (v ∷ vs) (new_lang providers) in
    let entered : ScalaLang = record made {
      is_resolve_phase = true;
      done = made.done ++ map on_resolve made.symbol_providers;
    } in
    let enters : enter_phase made ≡ entered = ground (arith, same.0) in
    let count : made.remaining_packages ≡ pos (suc (length vs)) =
      remaining-generate_all (v ∷ vs) (new_lang providers) 0 refl ∙ ap pos (omega arith) in
    ap (λ st. st.done)
      (resolve_all-enter_phase repo (rule_calls repo v.rel v.rules)
        (label_in repo v.rel (codes "package_marker"), marker v.rel) (calls_of repo vs) made)
    ∙ ap (λ st. (resolve_all repo (calls_of repo (v ∷ vs)) st).done) enters
    ∙ done-resolve_all repo v vs entered refl count d
        (generate_all-AreFresh (v ∷ vs) (new_lang providers))
    ∙ ap₂ (λ es ps. (es ++ map on_resolve ps) ++ (two_cycles (v ∷ vs) ++ map on_end ps)) same.1
        same.2
