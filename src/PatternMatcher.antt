-- ===== src/PatternMatcher.antt =====
-- config/ConfigPatternMatcher.ts: which configuration with a wildcard fits the name of an object.
-- A string is the list of its code units, and a matching point of -1 is `none`.
pub mod Best
use hazelcast_nodejs_client.Prelude.{
  ℕ, zero, suc, ◌+◌, ◌-◌, Bool, true, false, List, [], ◌∷◌, Option, none, some, ◌==◌, ltb, leb,
  if◌then◌else◌, length, drop,
}

-- The parts before and after the first asterisk.
unfoldable pub split_at_asterisk : List ℕ → Option (List ℕ × List ℕ)
split_at_asterisk [] = none
split_at_asterisk (c ∷ pattern) =
    let rest = split_at_asterisk pattern in
    if c == 42
    then some ([], pattern)
    else elim rest [ none ↦ none | some (first, second) ↦ some (c ∷ first, second) ]

unfoldable pub starts_with : List ℕ → List ℕ → Bool
starts_with s [] = true
starts_with [] (c ∷ prefix) = false
starts_with (d ∷ s) (c ∷ prefix) = if d == c then starts_with s prefix else false

abbrev same : List ℕ → List ℕ → Bool
same [] [] = true
same (c ∷ s) (d ∷ t) = if c == d then same s t else false
same _ _ = false

unfoldable pub ends_with : List ℕ → List ℕ → Bool
ends_with s suffix =
    if leb (length suffix) (length s)
    then same (drop (length s - length suffix) s) suffix
    else false

unfoldable pub get_matching_point : List ℕ → List ℕ → Option ℕ
unfolding split_at_asterisk starts_with ends_with
get_matching_point pattern item_name = elim (split_at_asterisk pattern) [
  | none ↦ none
  | some (first_part, second_part) ↦
      if starts_with item_name first_part
      then (if ends_with item_name second_part
          then some (length first_part + length second_part)
          else none)
      else none
]

-- The variables of the loop: the best point, the pattern that has it, and another that has it too.
pub record Search : Type 0 where
  pub best_matching_point : Option ℕ
  pub matching_pattern : Option (List ℕ)
  pub duplicate_pattern : Option (List ℕ)

abbrev better : List ℕ → ℕ → Search
better pattern point = record {
  best_matching_point = some point;
  matching_pattern = some pattern;
  duplicate_pattern = none;
}

-- The body of the loop.
unfoldable pub consider : Search → List ℕ → Option ℕ → Search
consider s pattern current_point = elim current_point [
  | none ↦ elim s.best_matching_point [
    | some b ↦ s
    | none ↦ elim s.matching_pattern [
      | none ↦ s
      | some m ↦ record s { duplicate_pattern = some m; matching_pattern = some pattern }
    ]
  ]
  | some point ↦ elim s.best_matching_point [
    | none ↦ better pattern point
    | some b ↦
        if ltb b point
        then better pattern point
        else if point == b
        then (elim s.matching_pattern [
          | none ↦ s
          | some m ↦ record s { duplicate_pattern = some m; matching_pattern = some pattern }
        ])
        else s
  ]
]

unfoldable pub search : List ℕ → Search → List (List ℕ) → Search
unfolding consider get_matching_point
search item_name s [] = s
search item_name s (pattern ∷ patterns) =
    search item_name (consider s pattern (get_matching_point pattern item_name)) patterns

-- The outcome of `matches`: an error, or the pattern, if any.
pub data Match : Type 0 where
  ambiguous : Match
  matched : Option (List ℕ) → Match

unfoldable pub matches : List (List ℕ) → List ℕ → Match
unfolding search
matches config_patterns item_name =
    let found =
      search item_name
        (record { best_matching_point = none; matching_pattern = none; duplicate_pattern = none })
        config_patterns in
    elim found.duplicate_pattern [ none ↦ matched found.matching_pattern | some _ ↦ ambiguous ]
