-- ===== src/Prelude/Orders.antt =====
-- SQL's ORDER BY over a table as a list of its rows, and the order of texts.
use Prim.Native.String.{String, compare}
use Prim.Native.Nat.{Ordering}
use mathlib.Core.Bool.{Bool, true, false}
use mathlib.Core.List.{List, [], ◌∷◌}
use autback.Prelude.Tests.{if◌then◌else◌}

-- ORDER BY, where rows that are equal keep their order.
module _ {A : Type 0} (before : A → A → Bool) where
  unfoldable pub insert_by : A → List A → List A
  insert_by r [] = r ∷ []
  insert_by r (s ∷ ss) = let rest = insert_by r ss in if before s r then s ∷ rest else r ∷ s ∷ ss

  unfoldable pub order_by : List A → List A
  unfolding insert_by
  order_by [] = []
  order_by (r ∷ rs) = insert_by r (order_by rs)

-- ASC on two columns, as SQLite compares texts.
abbrev pub text_pair_lt : String → String → String → String → Bool
text_pair_lt a b c d = elim (compare a c) [
  | Ordering.lt ↦ true
  | Ordering.gt ↦ false
  | Ordering.eq ↦ elim (compare b d) [ Ordering.lt ↦ true | _ ↦ false ]
]
