-- ===== src/StdSet.antt =====
-- std::set with its order as a parameter: the elements in ascending order. A new element is
-- inserted unless one is there that neither precedes nor follows it.
pub mod Laws
pub mod Unique
use ezbake_common.Common.{Bool, List, [], ◌∷◌, if◌then◌else◌}

module _ {ℓ} {A : Type ℓ} (less : A → A → Bool) where
  unfoldable pub insert : A → List A → List A
  insert x [] = x ∷ []
  insert x (y ∷ s) =
      let rest = insert x s in if less x y then x ∷ y ∷ s else if less y x then y ∷ rest else y ∷ s

  -- `set.insert` for each element of a range, in its order.
  unfoldable pub insert_all : List A → List A → List A
  unfolding insert
  insert_all [] s = s
  insert_all (x ∷ xs) s = insert_all xs (insert x s)
