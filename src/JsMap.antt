-- ===== src/JsMap.antt =====
-- The language's `Map`: entries in the order of insertion, keys compared by an instance of `Eq`.
use hazelcast_nodejs_client.Prelude.{
  ℕ, ◌≡◌, refl, ◌↔◌, Bool, true, false, List, [], ◌∷◌, Option, none, some, arith, ◌==◌, ==_iff,
  if◌then◌else◌, All,
}
use Prim.Native.String.{String}
use text.Mathlib.Text.{◌==◌ as str_eq}
use text.Mathlib.TextEquality.{eq_iff}

pub record Eq {ℓ} (A : Type ℓ) : Type ℓ where
  pub eqb : A → A → Bool
  pub eqb_iff : (a b : A) → (eqb a b ≡ true) ↔ (a ≡ b)

instance abbrev pub ℕ_eq : Eq ℕ
ℕ_eq = record { eqb = ◌==◌; eqb_iff = ==_iff }

instance abbrev pub string_eq : Eq String
string_eq = record { eqb = str_eq; eqb_iff = eq_iff }

module _ {ℓ} {K : Type ℓ} ⦃e : Eq K⦄ where
  pub eqb_refl : (k : K) → e.eqb k k ≡ true
  eqb_refl k = (e.eqb_iff k k).1 refl

  pub eqb_sym : (j k : K) → e.eqb j k ≡ e.eqb k j
  eqb_sym j k = ground (arith, e.eqb_iff j k, e.eqb_iff k j)

module _ {ℓ κ} {K : Type ℓ} {V : Type κ} ⦃e : Eq K⦄ where
  -- `Map.prototype.get`; `none` is `undefined`.
  unfoldable pub lookup : K → List (K × V) → Option V
  lookup k [] = none
  lookup k ((j, v) ∷ m) = if e.eqb j k then some v else lookup k m

  -- `Map.prototype.set`: an entry keeps its place, a new one goes to the end.
  unfoldable pub insert : K → V → List (K × V) → List (K × V)
  insert k v [] = (k, v) ∷ []
  insert k v ((j, w) ∷ m) =
      let rest = insert k v m in if e.eqb j k then (j, v) ∷ m else (j, w) ∷ rest

  -- `Map.prototype.delete`, without its result.
  unfoldable pub remove : K → List (K × V) → List (K × V)
  remove k [] = []
  remove k ((j, w) ∷ m) = let rest = remove k m in if e.eqb j k then rest else (j, w) ∷ rest

  -- `Map.prototype.has`
  unfoldable pub has : K → List (K × V) → Bool
  has k [] = false
  has k ((j, w) ∷ m) = if e.eqb j k then true else has k m

  pub lookup-insert :
      (k j : K) (v : V) (m : List (K × V))
      → lookup j (insert k v m) ≡ (if e.eqb k j then some v else lookup j m)
  unfolding lookup insert
  lookup-insert k j v [] = refl
  lookup-insert k j v ((i, w) ∷ m) =
      ground (arith, e.eqb_iff k j, e.eqb_iff i k, e.eqb_iff i j, lookup-insert k j v m)

  pub lookup-remove :
      (k j : K) (m : List (K × V))
      → lookup j (remove k m) ≡ (if e.eqb k j then none else lookup j m)
  unfolding lookup remove
  lookup-remove k j [] = ground arith
  lookup-remove k j ((i, w) ∷ m) =
      ground (arith, e.eqb_iff k j, e.eqb_iff i k, e.eqb_iff i j, lookup-remove k j m)

  pub has-lookup : (k : K) (m : List (K × V)) → lookup k m ≡ none → has k m ≡ false
  unfolding lookup has
  has-lookup k [] h = refl
  has-lookup k ((j, w) ∷ m) h = ground (arith, has-lookup k m)

  pub has-lookup-some : (k : K) (m : List (K × V)) (v : V) → lookup k m ≡ some v → has k m ≡ true
  unfolding lookup has
  has-lookup-some k [] v h = ground arith
  has-lookup-some k ((j, w) ∷ m) v h = ground (arith, has-lookup-some k m v)

  pub has-insert : (k : K) (v : V) (m : List (K × V)) → has k (insert k v m) ≡ true
  unfolding has insert
  has-insert k v [] = ground (arith, e.eqb_iff k k)
  has-insert k v ((j, w) ∷ m) = ground (arith, e.eqb_iff j k, has-insert k v m)

  pub has-remove :
      (k j : K) (m : List (K × V)) → has k (remove j m) ≡ (if e.eqb j k then false else has k m)
  unfolding has remove
  has-remove k j [] = ground arith
  has-remove k j ((i, w) ∷ m) =
      ground (arith, e.eqb_iff j k, e.eqb_iff i j, e.eqb_iff i k, has-remove k j m)

  module _ {μ} (P : K × V → Type μ) where
    pub All-lookup : (k : K) (m : List (K × V)) (v : V) → All P m → lookup k m ≡ some v → P (k, v)
    unfolding lookup
    All-lookup k [] v a h = ground arith
    All-lookup k ((j, w) ∷ m) v a h = ground (arith, e.eqb_iff j k, All-lookup k m v a.1, a.0)

    pub All-insert : (k : K) (v : V) (m : List (K × V)) → All P m → P (k, v) → All P (insert k v m)
    unfolding insert
    All-insert k v [] a p = (p, tt)
    All-insert k v ((j, w) ∷ m) a p =
        ground (arith, e.eqb_iff j k, All-insert k v m a.1 p, a.0, a.1, p)

    pub All-remove : (k : K) (m : List (K × V)) → All P m → All P (remove k m)
    unfolding remove
    All-remove k [] a = tt
    All-remove k ((j, w) ∷ m) a = ground (arith, All-remove k m a.1, a.0)
