-- ===== src/Std/HashSet.antt =====
-- `std::collections::HashSet`: a list of its members, whose order stands for the iteration order.
use brqueue.Base.{
  ◌≡◌, refl, ◌↔◌, Bool, true, false, ◌||◌, ◌&&◌, not, List, [], ◌∷◌, ◌++◌, all, arith, Eq, ◌==◌,
  if◌then◌else◌,
}

abbrev pub HashSet : Type 0 → Type 0
HashSet A = List A

module _ {A : Type 0} ⦃e : Eq A⦄ where
  unfoldable pub contains : HashSet A → A → Bool
  contains [] a = false
  contains (x ∷ xs) a = x == a || contains xs a

  -- A member that is there already is not added again.
  unfoldable pub insert : HashSet A → A → HashSet A
  unfolding contains
  insert xs a = if contains xs a then xs else a ∷ xs

  unfoldable pub remove : HashSet A → A → HashSet A
  remove [] a = []
  remove (x ∷ xs) a = let rest = remove xs a in if x == a then rest else x ∷ rest

  unfoldable pub from_iter : List A → HashSet A
  unfolding insert
  from_iter [] = []
  from_iter (x ∷ xs) = insert (from_iter xs) x

  unfoldable pub is_subset : HashSet A → HashSet A → Bool
  unfolding contains
  is_subset xs ys = all (contains ys) xs

  unfoldable pub is_superset : HashSet A → HashSet A → Bool
  unfolding is_subset
  is_superset xs ys = is_subset ys xs

  -- No member is listed twice.
  abbrev pub IsDistinct : HashSet A → Type 0
  IsDistinct [] = Unit
  IsDistinct (x ∷ xs) = (contains xs x ≡ false) × IsDistinct xs

  pub contains-append :
      (xs ys : List A) (a : A) → contains (xs ++ ys) a ≡ (contains xs a || contains ys a)
  unfolding contains
  contains-append [] ys a = refl
  contains-append (x ∷ xs) ys a = ground (arith, contains-append xs ys a)

  pub contains-insert :
      (xs : HashSet A) (a b : A) → contains (insert xs a) b ≡ (a == b || contains xs b)
  unfolding insert contains
  contains-insert xs a b = ground arith

  pub contains-remove :
      (xs : HashSet A) (a b : A) → contains (remove xs a) b ≡ (not (a == b) && contains xs b)
  unfolding remove contains
  contains-remove [] a b = ground arith
  contains-remove (x ∷ xs) a b = ground (arith, contains-remove xs a b)

  pub contains-from_iter : (l : List A) (a : A) → contains (from_iter l) a ≡ contains l a
  unfolding from_iter contains
  contains-from_iter [] a = refl
  contains-from_iter (x ∷ l) a =
      ground (arith, contains-insert (from_iter l) x a, contains-from_iter l a)

  insert-IsDistinct : (xs : HashSet A) (a : A) → IsDistinct xs → IsDistinct (insert xs a)
  unfolding insert
  insert-IsDistinct xs a d = ground arith

  remove-IsDistinct : (xs : HashSet A) (a : A) → IsDistinct xs → IsDistinct (remove xs a)
  unfolding remove contains
  remove-IsDistinct [] a d = tt
  remove-IsDistinct (x ∷ xs) a (fresh, d) =
      ground (arith, remove-IsDistinct xs a d, contains-remove xs a x)

  is_subset_sound :
      (xs ys : HashSet A)
      → is_subset xs ys ≡ true
      → (a : A) → contains xs a ≡ true
      → contains ys a ≡ true
  unfolding is_subset contains
  is_subset_sound [] ys h a m = cc
  is_subset_sound (x ∷ xs) ys h a m = ground (arith, is_subset_sound xs ys (ground arith) a)

  is_subset_complete :
      (xs ys : HashSet A)
      → ((a : A) → contains xs a ≡ true → contains ys a ≡ true)
      → is_subset xs ys ≡ true
  unfolding is_subset contains
  is_subset_complete [] ys h = refl
  is_subset_complete (x ∷ xs) ys h =
      ground (arith, h x, is_subset_complete xs ys (λ a m. h a (ground arith)))

  -- The subset test decides inclusion of the members.
  pub is_subset_iff :
      (xs ys : HashSet A)
      → (is_subset xs ys ≡ true) ↔ ((a : A) → contains xs a ≡ true → contains ys a ≡ true)
  is_subset_iff xs ys = (is_subset_sound xs ys, is_subset_complete xs ys)
