-- ===== src/Prelude/Sort.antt =====
-- Python's `sorted` of texts and of pairs of texts, and sets as sorted lists without repetition.
use Prim.Native.Nat.{Ordering}
use Prim.Native.String.{String, compare}
use mathlib.Core.Bool.{Bool, true, false, ◌&&◌, ◌||◌}
use mathlib.Core.List.{List, [], ◌∷◌}
use text.Mathlib.Text.{◌==◌}
use pegaprox_plugin_opnsense.Prelude.Tests.{if◌then◌else◌}

abbrev pub less : String → String → Bool
less s t = elim (compare s t) [ Ordering.lt ↦ true | _ ↦ false ]

module _ {A : Type 0} (lt : A → A → Bool) where
  unfoldable pub insert_sorted : A → List A → List A
  insert_sorted a [] = a ∷ []
  insert_sorted a (b ∷ bs) = if lt b a then b ∷ insert_sorted a bs else a ∷ b ∷ bs

  -- `sorted(xs)`
  unfoldable pub sorted : List A → List A
  unfolding insert_sorted
  sorted [] = []
  sorted (a ∷ as_) = insert_sorted a (sorted as_)

  unfoldable pub insert_once : A → List A → List A
  insert_once a [] = a ∷ []
  insert_once a (b ∷ bs) =
      if lt b a then b ∷ insert_once a bs else if lt a b then a ∷ b ∷ bs else b ∷ bs

  -- `sorted(set(xs))`
  unfoldable pub sorted_set : List A → List A
  unfolding insert_once
  sorted_set [] = []
  sorted_set (a ∷ as_) = insert_once a (sorted_set as_)

-- The order of pairs of texts
abbrev pub less_pair : String × String → String × String → Bool
less_pair (a, b) (c, d) = less a c || (a == c && less b d)

abbrev pub same_list : List String → List String → Bool
same_list [] [] = true
same_list (a ∷ as_) (b ∷ bs) = a == b && same_list as_ bs
same_list _ _ = false

abbrev pub same_pairs : List (String × String) → List (String × String) → Bool
same_pairs [] [] = true
same_pairs ((a, b) ∷ ps) ((c, d) ∷ qs) = a == c && b == d && same_pairs ps qs
same_pairs _ _ = false
