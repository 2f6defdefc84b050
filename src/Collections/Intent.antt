-- ===== src/Collections/Intent.antt =====
-- pkg/collections/intent.go.
use scala_gazelle.Prelude.{Str, Bool, not, ◌||◌, if◌then◌else◌, codes, drop, has_prefix, trim_space}

pub record Intent : Type 0 where
  pub value : Str
  pub want : Bool

-- `ParseIntent`
unfoldable pub parse_intent : Str → Intent
parse_intent value =
    let trimmed = trim_space value in
    let negative = has_prefix trimmed (codes "-") in
    let positive = has_prefix trimmed (codes "+") in
    record { value = if negative || positive then drop 1 trimmed else trimmed; want = not negative }
