-- ===== src/PatternMatcher/Best.antt =====
-- `matches` finds the pattern with the highest point, and is ambiguous where several have it.
use hazelcast_nodejs_client.Prelude.{
  ℕ, suc, ◌+◌, ◌≤◌, ◌<◌, ◌≡◌, refl, sym, subst, inl, inr, List, [], ◌∷◌, ◌++◌, none, some, arith,
  ◌==◌, leb, if◌then◌else◌, append_assoc, append-nil, Option-cases, get_elem?, get_elem?-append,
  get_elem?-append_left, length, ltb, Bool-cases,
}
use hazelcast_nodejs_client.PatternMatcher.{
  Search, Match, ambiguous, matched, consider, search, matches, get_matching_point,
}

module _ (item_name : List ℕ) where
  -- How many of the patterns have a point, and whether one has a higher one.
  abbrev pub having : ℕ → List (List ℕ) → ℕ
  having b [] = 0
  having b (p ∷ ps) =
      let rest = having b ps in
      elim (get_matching_point p item_name) [
        | none ↦ rest
        | some point ↦ if point == b then suc rest else rest
      ]

  abbrev pub higher : ℕ → List (List ℕ) → ℕ
  higher b [] = 0
  higher b (p ∷ ps) =
      let rest = higher b ps in
      elim (get_matching_point p item_name) [
        | none ↦ rest
        | some point ↦ if leb point b then rest else suc rest
      ]

  -- No pattern fits.
  abbrev pub fitting : List (List ℕ) → ℕ
  fitting [] = 0
  fitting (p ∷ ps) =
      let rest = fitting ps in
      elim (get_matching_point p item_name) [ none ↦ rest | some point ↦ suc rest ]

  having-snoc :
      (b : ℕ) (ps : List (List ℕ)) (p : List ℕ)
      → having b (ps ++ p ∷ []) ≡ having b ps + having b (p ∷ [])
  having-snoc b [] p = omega arith
  having-snoc b (q ∷ ps) p = ground (arith, having-snoc b ps p)

  higher-snoc :
      (b : ℕ) (ps : List (List ℕ)) (p : List ℕ)
      → higher b (ps ++ p ∷ []) ≡ higher b ps + higher b (p ∷ [])
  higher-snoc b [] p = omega arith
  higher-snoc b (q ∷ ps) p = ground (arith, higher-snoc b ps p)

  fitting-snoc :
      (ps : List (List ℕ)) (p : List ℕ) → fitting (ps ++ p ∷ []) ≡ fitting ps + fitting (p ∷ [])
  fitting-snoc [] p = omega arith
  fitting-snoc (q ∷ ps) p = ground (arith, fitting-snoc ps p)

  having-le :
      (b c : ℕ) (ps : List (List ℕ))
      → higher b ps ≡ 0
      → b < c
      → (having c ps ≡ 0) × (higher c ps ≡ 0)
  having-le b c [] e h = (refl, refl)
  having-le b c (p ∷ ps) e h = ground (arith, having-le b c ps)

  fitting-le : (c : ℕ) (ps : List (List ℕ)) → fitting ps ≡ 0 → (having c ps ≡ 0) × (higher c ps ≡ 0)
  fitting-le c [] e = (refl, refl)
  fitting-le c (p ∷ ps) e = ground (arith, fitting-le c ps)

  -- What the search knows of the patterns that it has seen: none fits, or the best point `b` is that
  -- of the pattern that it keeps, and it keeps a duplicate where several have it.
  pub data Knows (seen : List (List ℕ)) : Search → Type 0 where
    nothing :
        fitting seen ≡ 0
        → Knows seen (record {
          best_matching_point = none;
          matching_pattern = none;
          duplicate_pattern = none;
        })
    single :
        (b i : ℕ) (m : List ℕ)
        → get_elem? seen i ≡ some m
        → get_matching_point m item_name ≡ some b
        → higher b seen ≡ 0
        → having b seen ≡ 1
        → Knows seen (record {
          best_matching_point = some b;
          matching_pattern = some m;
          duplicate_pattern = none;
        })
    several :
        (b i : ℕ) (m d : List ℕ)
        → get_elem? seen i ≡ some m
        → get_matching_point m item_name ≡ some b
        → higher b seen ≡ 0
        → 2 ≤ having b seen
        → Knows seen (record {
          best_matching_point = some b;
          matching_pattern = some m;
          duplicate_pattern = some d;
        })

  consider-Knows :
      (seen : List (List ℕ)) (s : Search) (p : List ℕ)
      → Knows seen s
      → Knows (seen ++ p ∷ []) (consider s p (get_matching_point p item_name))
  unfolding consider
  consider-Knows seen s p (nothing e) = elim (Option-cases (get_matching_point p item_name)) [
    | inl f ↦ rw (f, consider) (nothing (ground (arith, fitting-snoc seen p)))
    | inr (x, f) ↦
        rw (f, consider)
          (single x (length seen) p (get_elem?-append seen [] p) f
            (ground (arith, higher-snoc x seen p, fitting-le x seen e))
            (ground (arith, having-snoc x seen p, fitting-le x seen e)))
  ]
  consider-Knows seen s p (single b i m at g h k) =
      elim (Option-cases (get_matching_point p item_name)) [
        | inl f ↦
            rw (f, consider)
              (single b i m (get_elem?-append_left seen (p ∷ []) i m at) g
                (ground (arith, higher-snoc b seen p)) (ground (arith, having-snoc b seen p)))
        | inr (x, f) ↦ elim (Bool-cases (ltb b x)) [
          | inl l ↦
              rw (f, l, consider)
                (single x (length seen) p (get_elem?-append seen [] p) f
                  (ground (arith, higher-snoc x seen p, having-le b x seen h))
                  (ground (arith, having-snoc x seen p, having-le b x seen h)))
          | inr l ↦ elim (Bool-cases (x == b)) [
            | inl q ↦
                rw (f, l, q, consider)
                  (several b (length seen) p m (get_elem?-append seen [] p) (ground arith)
                    (ground (arith, higher-snoc b seen p)) (ground (arith, having-snoc b seen p)))
            | inr q ↦
                rw (f, l, q, consider)
                  (single b i m (get_elem?-append_left seen (p ∷ []) i m at) g
                    (ground (arith, higher-snoc b seen p)) (ground (arith, having-snoc b seen p)))
          ]
        ]
      ]
  consider-Knows seen s p (several b i m d at g h k) =
      elim (Option-cases (get_matching_point p item_name)) [
        | inl f ↦
            rw (f, consider)
              (several b i m d (get_elem?-append_left seen (p ∷ []) i m at) g
                (ground (arith, higher-snoc b seen p)) (ground (arith, having-snoc b seen p)))
        | inr (x, f) ↦ elim (Bool-cases (ltb b x)) [
          | inl l ↦
              rw (f, l, consider)
                (single x (length seen) p (get_elem?-append seen [] p) f
                  (ground (arith, higher-snoc x seen p, having-le b x seen h))
                  (ground (arith, having-snoc x seen p, having-le b x seen h)))
          | inr l ↦ elim (Bool-cases (x == b)) [
            | inl q ↦
                rw (f, l, q, consider)
                  (several b (length seen) p m (get_elem?-append seen [] p) (ground arith)
                    (ground (arith, higher-snoc b seen p)) (ground (arith, having-snoc b seen p)))
            | inr q ↦
                rw (f, l, q, consider)
                  (several b i m d (get_elem?-append_left seen (p ∷ []) i m at) g
                    (ground (arith, higher-snoc b seen p)) (ground (arith, having-snoc b seen p)))
          ]
        ]
      ]

  search-Knows :
      (seen patterns : List (List ℕ)) (s : Search)
      → Knows seen s
      → Knows (seen ++ patterns) (search item_name s patterns)
  unfolding search
  search-Knows seen [] s k = subst (λ ps. Knows ps s) (sym (append-nil seen)) k
  search-Knows seen (p ∷ patterns) s k =
      let point = get_matching_point p item_name in
      subst (λ ps. Knows ps (search item_name (consider s p point) patterns))
        (append_assoc seen (p ∷ []) patterns)
        (search-Knows (seen ++ p ∷ []) patterns (consider s p point) (consider-Knows seen s p k))

  -- The right outcome for a list of patterns.
  abbrev pub Right : List (List ℕ) → Match → Type 0
  Right patterns ambiguous = (b : ℕ) × (higher b patterns ≡ 0) × (2 ≤ having b patterns)
  Right patterns (matched none) = fitting patterns ≡ 0
  Right patterns (matched (some m)) =
      (b : ℕ) × (i : ℕ) × (get_elem? patterns i ≡ some m)
      × (get_matching_point m item_name ≡ some b)
      × (higher b patterns ≡ 0)
      × (having b patterns ≡ 1)

  outcome : Search → Match
  outcome s = elim s.duplicate_pattern [ none ↦ matched s.matching_pattern | some _ ↦ ambiguous ]

  Knows-Right :
      (patterns : List (List ℕ)) (s : Search) → Knows patterns s → Right patterns (outcome s)
  unfolding outcome
  Knows-Right patterns s (nothing e) = e
  Knows-Right patterns s (single b i m at g h k) = (b, i, at, g, h, k)
  Knows-Right patterns s (several b i m d at g h k) = (b, h, k)

  -- `matches` returns the one pattern of the list with the highest point, nothing where none fits,
  -- and is ambiguous where several patterns have the highest point.
  pub matches-Right : (patterns : List (List ℕ)) → Right patterns (matches patterns item_name)
  unfolding matches outcome
  matches-Right patterns =
      let s : Search = record {
        best_matching_point = none;
        matching_pattern = none;
        duplicate_pattern = none;
      } in
      Knows-Right patterns (search item_name s patterns) (search-Knows [] patterns s (nothing refl))
