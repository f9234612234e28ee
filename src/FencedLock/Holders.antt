-- ===== src/FencedLock/Holders.antt =====
-- How many calls and locks use a session, counted in the list of calls and in the map of locks.
use hazelcast_nodejs_client.Prelude.{
  ℕ, suc, ◌+◌, ◌≡◌, refl, List, [], ◌∷◌, ◌++◌, none, some, arith, if◌then◌else◌, ==_iff, ℤ, eqb_ℤ,
}
use hazelcast_nodejs_client.JsMap.{
  ℕ_eq, string_eq, lookup, insert, remove, lookup-insert, lookup-remove,
}

-- How often a session id stands in a list, and among the values of a map.
abbrev pub count : ℤ → List ℤ → ℕ
count x [] = 0
count x (y ∷ ys) = let rest = count x ys in if eqb_ℤ x y then suc rest else rest

abbrev pub holds : ℤ → List (ℕ × ℤ) → ℕ
holds x [] = 0
holds x ((t, y) ∷ m) = let rest = holds x m in if eqb_ℤ x y then suc rest else rest

abbrev pub one : ℤ → ℤ → ℕ
one x y = if eqb_ℤ x y then 1 else 0

pub count-append :
    (x y : ℤ) (xs ys : List ℤ) → count x (xs ++ y ∷ ys) ≡ count x (xs ++ ys) + one x y
count-append x y [] ys = ground arith
count-append x y (z ∷ xs) ys = ground (arith, count-append x y xs ys)

pub holds-insert :
    (x y : ℤ) (t : ℕ) (m : List (ℕ × ℤ))
    → lookup t m ≡ none
    → holds x (insert t y m) ≡ holds x m + one x y
unfolding lookup insert
holds-insert x y t [] e = ground arith
holds-insert x y t ((u, z) ∷ m) e = ground (arith, holds-insert x y t m, ==_iff u t)

pub holds-remove_none :
    (x : ℤ) (t : ℕ) (m : List (ℕ × ℤ)) → lookup t m ≡ none → holds x (remove t m) ≡ holds x m
unfolding lookup remove
holds-remove_none x t [] e = refl
holds-remove_none x t ((u, z) ∷ m) e = ground (arith, holds-remove_none x t m, ==_iff u t)

-- A map in which every key stands once.
abbrev pub Once : List (ℕ × ℤ) → Type 0
Once [] = Unit
Once ((t, y) ∷ m) = (lookup t m ≡ none) × Once m

pub holds-remove :
    (x y : ℤ) (t : ℕ) (m : List (ℕ × ℤ))
    → Once m
    → lookup t m ≡ some y
    → holds x m ≡ holds x (remove t m) + one x y
unfolding lookup remove
holds-remove x y t [] o e = absurd (cc)
holds-remove x y t ((u, z) ∷ m) o e =
    ground (arith, holds-remove x y t m o.1, holds-remove_none x t m, o.0, ==_iff u t)

pub insert-Once : (t : ℕ) (y : ℤ) (m : List (ℕ × ℤ)) → Once m → Once (insert t y m)
unfolding lookup insert
insert-Once t y [] o = (refl, tt)
insert-Once t y ((u, z) ∷ m) o =
    ground (arith, insert-Once t y m o.1, lookup-insert t u y m, o.0, o.1, ==_iff u t)

pub remove-Once : (t : ℕ) (m : List (ℕ × ℤ)) → Once m → Once (remove t m)
unfolding lookup remove
remove-Once t [] o = tt
remove-Once t ((u, z) ∷ m) o =
    ground (arith, remove-Once t m o.1, lookup-remove t u m, o.0, ==_iff u t)
