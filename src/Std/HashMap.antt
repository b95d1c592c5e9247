-- ===== src/Std/HashMap.antt =====
-- `std::collections::HashMap`: an association list of its entries, in iteration order.
use brqueue.Base.{
  ◌≡◌, refl, Bool, true, false, ◌||◌, List, [], ◌∷◌, Option, none, some, arith, Eq, ◌==◌,
  if◌then◌else◌,
}

abbrev pub HashMap : Type 0 → Type 0 → Type 0
HashMap K V = List (K × V)

unfoldable pub is_empty : {K V : Type 0} → HashMap K V → Bool
is_empty [] = true
is_empty (x ∷ m) = false

module _ {K V : Type 0} ⦃e : Eq K⦄ where
  unfoldable pub get : HashMap K V → K → Option V
  get [] k = none
  get ((j, v) ∷ m) k = if j == k then some v else get m k

  unfoldable pub contains_key : HashMap K V → K → Bool
  contains_key [] k = false
  contains_key ((j, v) ∷ m) k = j == k || contains_key m k

  -- The value of a key that is there is replaced.
  unfoldable pub insert : HashMap K V → K → V → HashMap K V
  insert [] k v = (k, v) ∷ []
  insert ((j, w) ∷ m) k v = let rest = insert m k v in if j == k then (k, v) ∷ m else (j, w) ∷ rest

  -- The map without the key; `get` gives the value that the Rust method also returns.
  unfoldable pub remove : HashMap K V → K → HashMap K V
  remove [] k = []
  remove ((j, w) ∷ m) k = let rest = remove m k in if j == k then rest else (j, w) ∷ rest

  pub get-insert :
      (m : HashMap K V) (k j : K) (v : V)
      → get (insert m k v) j ≡ (if k == j then some v else get m j)
  unfolding get insert
  get-insert [] k j v = refl
  get-insert ((i, w) ∷ m) k j v = ground (arith, get-insert m k j v)

  pub get-remove :
      (m : HashMap K V) (k j : K) → get (remove m k) j ≡ (if k == j then none else get m j)
  unfolding get remove
  get-remove [] k j = ground arith
  get-remove ((i, w) ∷ m) k j = ground (arith, get-remove m k j)

  contains_key-get : (m : HashMap K V) (k : K) (v : V) → get m k ≡ some v → contains_key m k ≡ true
  unfolding get contains_key
  contains_key-get [] k v h = cc
  contains_key-get ((i, w) ∷ m) k v h = ground (arith, contains_key-get m k v)

  pub get-none_of_contains_key :
      (m : HashMap K V) (k : K) → contains_key m k ≡ false → get m k ≡ none
  unfolding get contains_key
  get-none_of_contains_key [] k h = refl
  get-none_of_contains_key ((i, w) ∷ m) k h = ground (arith, get-none_of_contains_key m k)
