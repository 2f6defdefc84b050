-- ===== src/Language/Lifecycle/Steps.antt =====
-- The calls of gazelle for one directory after the other, and what each does to the state.
use scala_gazelle.Prelude.{
  ℕ, suc, Str, str_has_eq, str_eq_iff, true, false, some, List, [], ◌∷◌, ◌++◌, if◌then◌else◌, map,
  ◌≡◌, refl, arith, inl, inr, Bool-cases, sym, ap, ◌∙◌, append-nil, append_assoc, codes,
}
use mathlib.Core.List.{map-append}
use scala_gazelle.Prelude.Map
use scala_gazelle.Prelude.Map.{Assoc, get-put, put-put, put_same}
use scala_gazelle.Label.{Label}
use scala_gazelle.Language.Lifecycle.{
  pos, is_zero, decrement, Rule, Generated, rule_of, marker, Event, Work, ScalaLang, generate_rules,
  event_of, resolve_in, finish_if_last, enter_phase, resolve_from, resolve_at, finalize, resolve,
}

-- a directory that is visited, and the rules of its package
pub record Visited : Type 0 where
  pub rel : Str
  pub rules : List Rule

abbrev pub generate_all : List Visited → ScalaLang → ScalaLang
generate_all [] sl = sl
generate_all (v ∷ vs) sl = generate_all vs (generate_rules v.rel true false v.rules sl).0

abbrev pub label_in : Str → Str → Str → Label
label_in repo rel name = record { repo = repo; pkg = rel; name = name; relative = false }

abbrev pub Calls : Type 0
Calls = List (Label × Generated)

abbrev pub rule_calls : Str → Str → List Rule → Calls
rule_calls repo rel [] = []
rule_calls repo rel (r ∷ rs) = (label_in repo rel r.name, rule_of r) ∷ rule_calls repo rel rs

-- the calls of gazelle: directory by directory, the rules and then the marker
abbrev pub calls_of : Str → List Visited → Calls
calls_of repo [] = []
calls_of repo (v ∷ vs) =
    rule_calls repo v.rel v.rules
    ++ (label_in repo v.rel (codes "package_marker"), marker v.rel) ∷ calls_of repo vs

abbrev pub resolve_all : Str → Calls → ScalaLang → ScalaLang
resolve_all repo [] sl = sl
resolve_all repo ((from, g) ∷ calls) sl = resolve_all repo calls (resolve repo from g sl)

-- the work of a directory: its rules with a provider, in their order
abbrev pub work_of : Str → List Rule → List Work
work_of rel [] = []
work_of rel (r ∷ rs) =
    let rest = work_of rel rs in
    if r.has_provider then record { from = label_in [] rel r.name; rule = r } ∷ rest else rest

-- every rule of a directory is resolved, and then each of them again
abbrev pub two_cycles : List Visited → List Event
two_cycles [] = []
two_cycles (v ∷ vs) =
    let events = map event_of (work_of v.rel v.rules) in events ++ (events ++ two_cycles vs)

-- the state behind some rules of a directory
abbrev pub worked : Str → List Work → List Work → ScalaLang → ScalaLang
worked rel w more sl = record sl {
  packages = Map.put rel (w ++ more) sl.packages;
  done = sl.done ++ map event_of more;
}

pub worked-worked :
    (rel : Str) (w xs ys : List Work) (sl : ScalaLang)
    → worked rel (w ++ xs) ys (worked rel w xs sl) ≡ worked rel w (xs ++ ys) sl
worked-worked rel w xs ys sl =
    rw
      (
        put-put rel ((w ++ xs) ++ ys) (w ++ xs) sl.packages,
        append_assoc w xs ys,
        append_assoc sl.done (map event_of xs) (map event_of ys),
        map-append event_of xs ys,
      )
      refl

abbrev pub own_work : Str → Rule → List Work
own_work rel r = work_of rel (r ∷ [])

pub resolve-rule_of :
    (repo rel : Str) (r : Rule) (w : List Work) (sl : ScalaLang)
    → sl.is_resolve_phase ≡ true
    → is_zero sl.remaining_packages ≡ false
    → Map.get rel sl.packages ≡ some w
    → resolve repo (label_in repo rel r.name) (rule_of r) sl ≡ worked rel w (own_work rel r) sl
unfolding resolve resolve_in
resolve-rule_of repo rel r w sl p z g =
    let same = (str_eq_iff repo repo).1 refl in
    elim (Bool-cases r.has_provider) [
      | inl q ↦ rw (same, p, g, q, z) refl
      | inr q ↦
          rw (same, p, g, q, z, append-nil w, append-nil sl.done, put_same rel w sl.packages g) refl
    ]

pub work_of-cons :
    (rel : Str) (r : Rule) (rs : List Rule)
    → work_of rel (r ∷ rs) ≡ own_work rel r ++ work_of rel rs
work_of-cons rel r rs = ground arith

pub resolve_all-rule_calls :
    (repo rel : Str) (rs : List Rule) (w : List Work) (sl : ScalaLang)
    → sl.is_resolve_phase ≡ true
    → is_zero sl.remaining_packages ≡ false
    → Map.get rel sl.packages ≡ some w
    → resolve_all repo (rule_calls repo rel rs) sl ≡ worked rel w (work_of rel rs) sl
resolve_all-rule_calls repo rel [] w sl p z g =
    rw (append-nil w, append-nil sl.done, put_same rel w sl.packages g) refl
resolve_all-rule_calls repo rel (r ∷ rs) w sl p z g =
    let own = own_work rel r in
    let found : Map.get rel (Map.put rel (w ++ own) sl.packages) ≡ some (w ++ own) =
      ground (arith, get-put rel rel (w ++ own) sl.packages, str_eq_iff rel rel) in
    ap (resolve_all repo (rule_calls repo rel rs)) (resolve-rule_of repo rel r w sl p z g)
    ∙ resolve_all-rule_calls repo rel rs (w ++ own) (worked rel w own sl) p z found
    ∙ worked-worked rel w own (work_of rel rs) sl
    ∙ ap (λ ws. worked rel w ws sl) (sym (work_of-cons rel r rs))

-- the state behind a directory, before the hooks at the end
abbrev pub visited : Visited → ℕ → ScalaLang → ScalaLang
visited v n sl =
    let work = work_of v.rel v.rules in
    record sl {
      packages = Map.put v.rel work sl.packages;
      remaining_packages = pos n;
      done = sl.done ++ (map event_of work ++ map event_of work);
    }

pub enter_phase-again : (sl : ScalaLang) → sl.is_resolve_phase ≡ true → enter_phase sl ≡ sl
enter_phase-again sl p = ground arith

pub resolve_from-marker :
    (rel name : Str) (w : List Work) (sl : ScalaLang)
    → Map.get rel sl.packages ≡ some w
    → resolve_from (label_in [] rel name) (marker rel) sl
      ≡ finish_if_last (record sl {
        remaining_packages = decrement sl.remaining_packages;
        done = sl.done ++ map event_of w;
      })
resolve_from-marker rel name w sl g =
    ap (λ o. resolve_at o (label_in [] rel name) (marker rel) sl) g
    ∙ ap
        (λ o. finish_if_last (record (finalize o sl) {
          remaining_packages = decrement (finalize o sl).remaining_packages;
        }))
        g

pub resolve-marker :
    (repo rel name : Str) (w : List Work) (n : ℕ) (sl : ScalaLang)
    → sl.is_resolve_phase ≡ true
    → sl.remaining_packages ≡ pos (suc n)
    → Map.get rel sl.packages ≡ some w
    → resolve repo (label_in repo rel name) (marker rel) sl
      ≡ finish_if_last (record sl { remaining_packages = pos n; done = sl.done ++ map event_of w })
unfolding resolve
resolve-marker repo rel name w n sl p z g =
    let same = (str_eq_iff repo repo).1 refl in
    rw same (
      ap (resolve_from (label_in [] rel name) (marker rel)) (enter_phase-again sl p)
      ∙ resolve_from-marker rel name w sl g
      ∙ ap
          (λ k.
            finish_if_last
              (record sl { remaining_packages = decrement k; done = sl.done ++ map event_of w }))
          z)

pub resolve-marker_worked :
    (repo : Str) (v : Visited) (n : ℕ) (sl : ScalaLang)
    → sl.is_resolve_phase ≡ true
    → sl.remaining_packages ≡ pos (suc n)
    → resolve repo
        (label_in repo v.rel (codes "package_marker"))
        (marker v.rel)
        (worked v.rel [] (work_of v.rel v.rules) sl)
      ≡ finish_if_last (visited v n sl)
resolve-marker_worked repo v n sl p z =
    let work = work_of v.rel v.rules in
    let found : Map.get v.rel (Map.put v.rel work sl.packages) ≡ some work =
      ground (arith, get-put v.rel v.rel work sl.packages, str_eq_iff v.rel v.rel) in
    resolve-marker repo v.rel (codes "package_marker") work n (worked v.rel [] work sl) p z found
    ∙ ap (λ es. finish_if_last (record (visited v n sl) { done = es }))
        (append_assoc sl.done (map event_of work) (map event_of work))

pub resolve_all-append :
    (repo : Str) (xs ys : Calls) (sl : ScalaLang)
    → resolve_all repo (xs ++ ys) sl ≡ resolve_all repo ys (resolve_all repo xs sl)
resolve_all-append repo [] ys sl = refl
resolve_all-append repo ((from, g) ∷ xs) ys sl =
    resolve_all-append repo xs ys (resolve repo from g sl)

pub resolve_all-visited :
    (repo : Str) (v : Visited) (calls : Calls) (n : ℕ) (sl : ScalaLang)
    → sl.is_resolve_phase ≡ true
    → sl.remaining_packages ≡ pos (suc n)
    → Map.get v.rel sl.packages ≡ some []
    → resolve_all repo
        (rule_calls repo v.rel v.rules
          ++ (label_in repo v.rel (codes "package_marker"), marker v.rel) ∷ calls)
        sl
      ≡ resolve_all repo calls (finish_if_last (visited v n sl))
resolve_all-visited repo v calls n sl p z g =
    let last : Label × Generated = (label_in repo v.rel (codes "package_marker"), marker v.rel) in
    resolve_all-append repo (rule_calls repo v.rel v.rules) (last ∷ calls) sl
    ∙ ap (resolve_all repo (last ∷ calls))
        (resolve_all-rule_calls repo v.rel v.rules [] sl p (ap is_zero z) g)
    ∙ ap (resolve_all repo calls) (resolve-marker_worked repo v n sl p z)
