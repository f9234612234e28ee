-- ===== src/Tests/Patterns.antt =====
-- Two patterns, `a*` and `ab*`, and the name `abc`.
use hazelcast_nodejs_client.Prelude.{ℕ, ◌≡◌, refl, List, [], ◌∷◌, some}
use hazelcast_nodejs_client.PatternMatcher.{ambiguous, matched, matches, get_matching_point}
use hazelcast_nodejs_client.PatternMatcher.Best.{Right, matches-Right}

abbrev patterns : List (List ℕ)
patterns = (97 ∷ 42 ∷ []) ∷ (97 ∷ 98 ∷ 42 ∷ []) ∷ []

abbrev name : List ℕ
name = 97 ∷ 98 ∷ 99 ∷ []

-- The longer pattern fits better; with itself it is ambiguous.
chosen :
    (matches patterns name ≡ matched (some (97 ∷ 98 ∷ 42 ∷ [])))
    × (matches ((97 ∷ 98 ∷ 42 ∷ []) ∷ patterns) name ≡ ambiguous)
unfolding matches get_matching_point
chosen = (refl, refl)

matches-Right_example : Right name patterns (matches patterns name)
matches-Right_example = matches-Right name patterns
