-- ===== src/PnCounter/Settling.antt =====
-- The retries of a call of the counter end: every retry excludes one more of the members.
use hazelcast_nodejs_client.Prelude.{
  ℕ, zero, suc, ◌+◌, ◌%◌, ◌≤◌, ◌<◌, ◌≡◌, ◌≢◌, inl, inr, true, not, ◌||◌, List, [], ◌∷◌, ◌++◌,
  Option, none, some, arith, length, get_elem?, take, select, min, All, Option-cases, Bool-cases,
  refl, List-cases, ◌⊎◌, length-select-le,
}
use hazelcast_nodejs_client.JsMap.{Eq}
use hazelcast_nodejs_client.PnCounter.{
  entry_set, PnCounter, Attempt, Operation, Fallible, done, fails, pending, excluded, pick,
  get_replica_addresses, get_max_configured_replica_count, choose_and_keep,
  get_crdt_operation_target, invoke_internal,
}

module _ {M : Type 0} ⦃e : Eq M⦄ where
  -- The members that a call has not tried.
  abbrev untried : List M → List M → List M
  untried ex ms = select (λ m. not (excluded ex m)) ms

  excluded-append :
      (ex : List M) (x m : M) → excluded (ex ++ x ∷ []) m ≡ (excluded ex m || e.eqb m x)
  unfolding excluded
  excluded-append [] x m = ground arith
  excluded-append (y ∷ ex) x m = ground (arith, excluded-append ex x m)

  length-untried-le :
      (ex ms : List M) (x : M) → length (untried (ex ++ x ∷ []) ms) ≤ length (untried ex ms)
  length-untried-le ex [] x = omega arith
  length-untried-le ex (m ∷ ms) x =
      ground (arith, excluded-append ex x m, length-untried-le ex ms x)

  -- A member that was chosen among the untried ones is then tried.
  untried-shrinks :
      (ex ms : List M) (k i : ℕ) (x : M)
      → get_elem? (untried ex (take k ms)) i ≡ some x
      → length (untried (ex ++ x ∷ []) ms) < length (untried ex ms)
  untried-shrinks ex ms zero i x h = absurd (cc)
  untried-shrinks ex [] (suc k) i x h = absurd (cc)
  untried-shrinks ex (m ∷ ms) (suc k) zero x h = elim (Bool-cases (excluded ex m)) [
    | inl tried ↦ ground (arith, excluded-append ex x m, untried-shrinks ex ms k zero x)
    | inr free ↦ ground (arith, excluded-append ex x m, e.eqb_iff m x, length-untried-le ex ms x)
  ]
  untried-shrinks ex (m ∷ ms) (suc k) (suc i) x h = elim (Bool-cases (excluded ex m)) [
    | inl tried ↦ ground (arith, excluded-append ex x m, untried-shrinks ex ms k (suc i) x)
    | inr free ↦ ground (arith, excluded-append ex x m, untried-shrinks ex ms k i x)
  ]

  pick-shrinks :
      (ex ms : List M) (n draw : ℕ) (x : M)
      → pick (get_replica_addresses ms n ex) draw ≡ some x
      → length (untried (ex ++ x ∷ []) ms) < length (untried ex ms)
  unfolding pick get_replica_addresses
  pick-shrinks ex ms n draw x h = elim (List-cases (get_replica_addresses ms n ex)) [
    | inl empty ↦ absurd (ground arith)
    | inr (y, ys, full) ↦
        untried-shrinks ex ms (min n (length ms)) (draw % suc (length ys)) x (ground arith)
  ]

  excluded_last : (ex : List M) (x : M) → excluded (ex ++ x ∷ []) x ≡ true
  excluded_last ex x = ground (arith, excluded-append ex x x, e.eqb_iff x x)

Fallible-cases :
    {E A : Type 0} (f : Fallible E A) → ((err : E) × (f ≡ fails err)) ⊎ ((a : A) × (f ≡ done a))
Fallible-cases (fails err) = inl (err, refl)
Fallible-cases (done a) = inr (a, refl)

-- A call that has no target yet, or whose target has failed it.
abbrev Failed : {M : Type 0} → ⦃e : Eq M⦄ → PnCounter M → List M → Type 0
Failed {M} c ex = (t : M) → c.current_target_replica_address ≡ some t → excluded ex t ≡ true

last_target-Failed :
    {M : Type 0} ⦃e : Eq M⦄ (c : PnCounter M) (ex : List M) (x : M)
    → c.current_target_replica_address ≡ some x
    → Failed c (ex ++ x ∷ [])
last_target-Failed c ex x h t k = ground (arith, excluded_last ex x)

module _ {M E : Type 0} ⦃e : Eq M⦄ where
  target-Failed :
      (c : PnCounter M) (a : Attempt M E) (ex : List M)
      → Failed c ex
      → get_crdt_operation_target c a ex ≡ choose_and_keep c a ex
  unfolding get_crdt_operation_target
  target-Failed c a ex f = elim (Option-cases c.current_target_replica_address) [
    | inl n ↦ ground arith
    | inr (t, s) ↦ ground (arith, f t s)
  ]

  choose_and_keep-shrinks :
      (c : PnCounter M) (a : Attempt M E) (ex : List M) (x : M)
      → (choose_and_keep c a ex).1 ≡ done (some x)
      → (length (untried (ex ++ x ∷ []) a.data_members) < length (untried ex a.data_members))
        × ((choose_and_keep c a ex).0.current_target_replica_address ≡ some x)
  unfolding choose_and_keep
  choose_and_keep-shrinks c a ex x h =
      elim (Fallible-cases (get_max_configured_replica_count c a).1) [
        | inl (err, f) ↦ absurd (ground arith)
        | inr (n, f) ↦ (pick-shrinks ex a.data_members n a.draw x (ground arith), ground arith)
      ]

  -- From a target that has failed on, there are attempts enough to exclude all members.
  retries_settle :
      (ms : List M) (attempts : List (Attempt M E)) (c : PnCounter M) (ex : List M) (err : Option E)
      (op : Operation)
      → All (λ (a : Attempt M E). a.data_members ≡ ms) attempts
      → Failed c ex
      → length (untried ex ms) < length attempts
      → (invoke_internal c ex err op attempts).1 ≢ pending
  unfolding invoke_internal
  retries_settle ms [] c ex err op same f h = absurd (omega (arith, h))
  retries_settle ms (a ∷ attempts) c ex err op same f h =
      elim (Fallible-cases (choose_and_keep c a ex).1) [
        | inl (er, g) ↦ ground (arith, target-Failed c a ex f)
        | inr (o, g) ↦ elim (Option-cases o) [
          | inl n ↦ elim (Option-cases err) [
            | inl q ↦ ground (arith, target-Failed c a ex f)
            | inr (w, q) ↦ ground (arith, target-Failed c a ex f)
          ]
          | inr (x, n) ↦
              let t = (choose_and_keep c a ex).0 in
              let chosen = choose_and_keep-shrinks c a ex x (ground arith) in
              elim (Fallible-cases (a.call x op (entry_set t.last_observed_vector_clock))) [
                | inl (er, r) ↦ ground (
                  arith,
                  target-Failed c a ex f,
                  retries_settle ms attempts t (ex ++ x ∷ []) (some er) op same.1
                      (last_target-Failed t ex x chosen.1),
                  chosen.0,
                  same.0,
                )
                | inr (r, q) ↦ ground (arith, target-Failed c a ex f)
              ]
        ]
      ]

  -- Every call is settled, whatever the requests answer, once it had two more attempts than the
  -- cluster has data members, where those do not change during the call.
  pub invoke_internal-settles :
      (ms : List M) (attempts : List (Attempt M E)) (c : PnCounter M) (op : Operation)
      → All (λ (a : Attempt M E). a.data_members ≡ ms) attempts
      → length ms + 1 < length attempts
      → (invoke_internal c [] none op attempts).1 ≢ pending
  unfolding invoke_internal get_crdt_operation_target excluded
  invoke_internal-settles ms [] c op same h = absurd (omega (arith, h))
  invoke_internal-settles ms (a ∷ attempts) c op same h =
      elim (Option-cases c.current_target_replica_address) [
        | inl n ↦
            retries_settle ms (a ∷ attempts) c [] none op same (λ t k. ground arith)
              (omega (arith, length-select-le (λ m. not (excluded [] m)) ms))
        | inr (x, n) ↦
            elim (Fallible-cases (a.call x op (entry_set c.last_observed_vector_clock))) [
              | inl (er, r) ↦ ground (
                arith,
                retries_settle ms attempts c (x ∷ []) (some er) op same.1
                    (last_target-Failed c [] x n),
                length-select-le (λ m. not (excluded (x ∷ []) m)) ms,
              )
              | inr (r, q) ↦ ground arith
            ]
      ]
