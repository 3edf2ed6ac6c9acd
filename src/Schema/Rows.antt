-- ===== src/Schema/Rows.antt =====
-- The query verbs over the rows of a table, by what Prisma documents of them: the filter of a
-- `where`, the change of a `data`. A table has no order of its own, so what is proved of every
-- list of rows holds of whichever row `findFirst` takes.
pub mod Laws
use gamja_market.Base.{ℕ, suc, Bool, Option, none, some, List, [], ◌∷◌, if◌then◌else◌}

module _ {ℓ} {A : Type ℓ} where
  -- `findFirst`, `findUnique`
  unfoldable pub find_first : (A → Bool) → List A → Option A
  find_first p [] = none
  find_first p (r ∷ rs) = if p r then some r else find_first p rs

  -- `findMany`
  unfoldable pub find_many : (A → Bool) → List A → List A
  find_many p [] = []
  find_many p (r ∷ rs) = let rest = find_many p rs in if p r then r ∷ rest else rest

  -- `updateMany`
  unfoldable pub update_many : (A → Bool) → (A → A) → List A → List A
  update_many p f [] = []
  update_many p f (r ∷ rs) = (if p r then f r else r) ∷ update_many p f rs

  -- `deleteMany`
  unfoldable pub delete_many : (A → Bool) → List A → List A
  delete_many p [] = []
  delete_many p (r ∷ rs) = let rest = delete_many p rs in if p r then rest else r ∷ rest

  unfoldable pub insert_by : (A → A → Bool) → A → List A → List A
  insert_by before r [] = r ∷ []
  insert_by before r (s ∷ ss) =
      let rest = insert_by before r ss in if before r s then r ∷ s ∷ ss else s ∷ rest

  -- `orderBy`, by a test that holds of two rows when the first may come first
  unfoldable pub sort_by : (A → A → Bool) → List A → List A
  unfolding insert_by
  sort_by before [] = []
  sort_by before (r ∷ rs) = insert_by before r (sort_by before rs)

  -- `count`, and the `count` that `updateMany` returns
  unfoldable pub count : (A → Bool) → List A → ℕ
  count p [] = 0
  count p (r ∷ rs) = let rest = count p rs in if p r then suc rest else rest
