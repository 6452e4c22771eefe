-- ===== src/Sort.antt =====
-- sort.Strings and sort.Slice on distinct keys: the ascending order of a list.
use miakapp_server.Prelude.{Bool, List, [], ◌∷◌, if◌then◌else◌}

module _ {A : Type 0} (le : A → A → Bool) where
  unfoldable pub sorted_insert : A → List A → List A
  sorted_insert a [] = a ∷ []
  sorted_insert a (x ∷ xs) = if le a x then a ∷ x ∷ xs else x ∷ sorted_insert a xs

  unfoldable pub sort : List A → List A
  unfolding sorted_insert
  sort [] = []
  sort (x ∷ xs) = sorted_insert x (sort xs)
