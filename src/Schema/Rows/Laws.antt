-- ===== src/Schema/Rows/Laws.antt =====
-- Laws of the query verbs: what an update of one row, found by its key, does to a count and to a
-- look-up.
use gamja_market.Base.{
  ℕ, ◌+◌, ◌≤◌, ◌<◌, ◌≡◌, refl, Bool, true, false, ◌&&◌, none, some, List, [], ◌∷◌, arith, ◌==◌,
  if◌then◌else◌, is_some, to_ℕ,
}
use gamja_market.Schema.Rows.{find_first, find_many, update_many, count}

module _ {ℓ} {A : Type ℓ} where
  pub find_first_holds :
      (p : A → Bool) (rs : List A) (r : A) → find_first p rs ≡ some r → p r ≡ true
  unfolding find_first
  find_first_holds p [] r h = ground arith
  find_first_holds p (x ∷ rs) r h = ground (arith, find_first_holds p rs r)

  pub find_first-no_test :
      (p : A → Bool) (rs : List A) → find_first (λ r. p r && true) rs ≡ find_first p rs
  unfolding find_first
  find_first-no_test p [] = refl
  find_first-no_test p (x ∷ rs) = ground (arith, find_first-no_test p rs)

  pub update_many-find_none :
      (p : A → Bool) (f : A → A) (rs : List A) → find_first p rs ≡ none → update_many p f rs ≡ rs
  unfolding find_first update_many
  update_many-find_none p f [] h = refl
  update_many-find_none p f (x ∷ rs) h = ground (arith, update_many-find_none p f rs)

  pub count-le :
      (p q : A → Bool) (rs : List A) → ((r : A) → q r ≡ true → p r ≡ true) → count q rs ≤ count p rs
  unfolding count
  count-le p q [] w = omega arith
  count-le p q (x ∷ rs) w = ground (arith, w x, count-le p q rs w)

  pub count-find_none : (p : A → Bool) (rs : List A) → find_first p rs ≡ none → count p rs ≡ 0
  unfolding find_first count
  count-find_none p [] h = refl
  count-find_none p (x ∷ rs) h = ground (arith, count-find_none p rs)

  pub count-find_some :
      (p : A → Bool) (rs : List A) (r : A) → find_first p rs ≡ some r → 0 < count p rs
  unfolding find_first count
  count-find_some p [] r h = ground arith
  count-find_some p (x ∷ rs) r h = ground (arith, count-find_some p rs r)

  pub find-count_pos :
      (p : A → Bool) (rs : List A) → 0 < count p rs → is_some (find_first p rs) ≡ true
  unfolding find_first count
  find-count_pos p [] h = ground arith
  find-count_pos p (x ∷ rs) h = ground (arith, find-count_pos p rs)

  pub find_none-count : (p : A → Bool) (rs : List A) → count p rs ≡ 0 → find_first p rs ≡ none
  unfolding find_first count
  find_none-count p [] h = refl
  find_none-count p (x ∷ rs) h = ground (arith, find_none-count p rs)

  pub find_none-weaken :
      (p q : A → Bool) (rs : List A)
      → ((r : A) → q r ≡ true → p r ≡ true)
      → find_first p rs ≡ none
      → find_first q rs ≡ none
  unfolding find_first
  find_none-weaken p q [] w h = refl
  find_none-weaken p q (x ∷ rs) w h = ground (arith, w x, find_none-weaken p q rs w)

  pub count-find_many_le : (p q : A → Bool) (rs : List A) → count p (find_many q rs) ≤ count p rs
  unfolding find_many count
  count-find_many_le p q [] = omega arith
  count-find_many_le p q (x ∷ rs) = ground (arith, count-find_many_le p q rs)

  -- An update that keeps what `p` says of every updated row keeps its count.
  pub count-update_same :
      (p q : A → Bool) (f : A → A) (rs : List A)
      → ((r : A) → q r ≡ true → p (f r) ≡ p r)
      → count p (update_many q f rs) ≡ count p rs
  unfolding update_many count
  count-update_same p q f [] h = refl
  count-update_same p q f (x ∷ rs) h = ground (arith, h x, count-update_same p q f rs h)

  -- An update after which no updated row satisfies `p`, where `p` held of updated rows only.
  pub count-update_clear :
      (p q : A → Bool) (f : A → A) (rs : List A)
      → ((r : A) → q r ≡ true → p (f r) ≡ false)
      → ((r : A) → q r ≡ false → p r ≡ false)
      → count p (update_many q f rs) ≡ 0
  unfolding update_many count
  count-update_clear p q f [] h k = refl
  count-update_clear p q f (x ∷ rs) h k = ground (arith, h x, k x, count-update_clear p q f rs h k)

  -- An update after which no updated row satisfies `p` adds none.
  pub count-update_le :
      (p q : A → Bool) (f : A → A) (rs : List A)
      → ((r : A) → p (f r) ≡ false)
      → count p (update_many q f rs) ≤ count p rs
  unfolding update_many count
  count-update_le p q f [] h = omega arith
  count-update_le p q f (x ∷ rs) h = ground (arith, h x, count-update_le p q f rs h)

  pub count-find_many : (p : A → Bool) (rs : List A) → count p (find_many p rs) ≡ count p rs
  unfolding find_many count
  count-find_many p [] = refl
  count-find_many p (x ∷ rs) = ground (arith, count-find_many p rs)

module _ {ℓ} {A : Type ℓ} (key : A → ℕ) where
  abbrev pub has_key : ℕ → A → Bool
  has_key k r = key r == k

  -- The key is a primary key.
  abbrev pub HasUniqueKeys : List A → Type 0
  HasUniqueKeys rs = (k : ℕ) → count (has_key k) rs ≤ 1

  -- An update that names no row changes nothing.
  pub update_many-absent :
      (k : ℕ) (f : A → A) (rs : List A)
      → count (has_key k) rs ≡ 0
      → update_many (has_key k) f rs ≡ rs
  unfolding update_many count
  update_many-absent k f [] h = refl
  update_many-absent k f (x ∷ rs) h = ground (arith, update_many-absent k f rs)

  update_many_both-absent :
      (k : ℕ) (q : A → Bool) (f : A → A) (rs : List A)
      → count (has_key k) rs ≡ 0
      → update_many (λ t. key t == k && q t) f rs ≡ rs
  unfolding update_many count
  update_many_both-absent k q f [] h = refl
  update_many_both-absent k q f (x ∷ rs) h = ground (arith, update_many_both-absent k q f rs)

  -- The look-up by key after an update that keeps the keys.
  pub find_first-update_many :
      (k : ℕ) (q : A → Bool) (f : A → A) (rs : List A)
      → ((r : A) → key (f r) ≡ key r)
      → find_first (has_key k) (update_many q f rs)
        ≡ elim (find_first (has_key k) rs) [ none ↦ none | some r ↦ some (if q r then f r else r) ]
  unfolding find_first update_many
  find_first-update_many k q f [] h = refl
  find_first-update_many k q f (x ∷ rs) h = ground (arith, h x, find_first-update_many k q f rs h)

  -- The look-up by another key is not touched by the update of one row.
  pub find_first-update_key :
      (j k : ℕ) (f : A → A) (rs : List A)
      → ((r : A) → key (f r) ≡ key r)
      → find_first (has_key j) (update_many (has_key k) f rs) ≡ elim (find_first (has_key j) rs) [
        | none ↦ none
        | some r ↦ some (if j == k then f r else r)
      ]
  unfolding find_first update_many
  find_first-update_key j k f [] h = refl
  find_first-update_key j k f (x ∷ rs) h = ground (arith, h x, find_first-update_key j k f rs h)

  pub count-key_of_find :
      (k : ℕ) (q : A → Bool) (rs : List A) (r : A)
      → find_first (λ t. key t == k && q t) rs ≡ some r
      → 0 < count (has_key k) rs
  unfolding find_first count
  count-key_of_find k q [] r h = ground arith
  count-key_of_find k q (x ∷ rs) r h = ground (arith, count-key_of_find k q rs r)

  -- Under a unique key, the first row with the key and a property is the row of that key.
  pub find_first_unique :
      (k : ℕ) (q : A → Bool) (rs : List A) (r : A)
      → count (has_key k) rs ≤ 1
      → find_first (λ t. key t == k && q t) rs ≡ some r
      → find_first (has_key k) rs ≡ some r
  unfolding find_first count
  find_first_unique k q [] r u h = ground arith
  find_first_unique k q (x ∷ rs) r u h =
      ground (arith, find_first_unique k q rs r, count-key_of_find k q rs r)

  -- The update of the row found by its key moves a count by what it does to that row.
  pub count-update_one :
      (p : A → Bool) (k : ℕ) (q : A → Bool) (f : A → A) (rs : List A) (r : A)
      → count (has_key k) rs ≤ 1
      → find_first (λ t. key t == k && q t) rs ≡ some r
      → count p (update_many (has_key k) f rs) + to_ℕ (p r) ≡ count p rs + to_ℕ (p (f r))
  unfolding find_first update_many count
  count-update_one p k q f [] r u h = ground arith
  count-update_one p k q f (x ∷ rs) r u h =
      ground (
        arith,
        count-update_one p k q f rs r,
        count-key_of_find k q rs r,
        update_many-absent k f rs,
      )

  -- Under a unique key, an update of the rows with a key and a property that one row has is the
  -- update of the row of that key.
  pub update_many-narrow :
      (k : ℕ) (q : A → Bool) (f : A → A) (rs : List A) (r : A)
      → count (has_key k) rs ≤ 1
      → find_first (λ t. key t == k && q t) rs ≡ some r
      → update_many (λ t. key t == k && q t) f rs ≡ update_many (has_key k) f rs
  unfolding find_first update_many count
  update_many-narrow k q f [] r u h = refl
  update_many-narrow k q f (x ∷ rs) r u h = ground (
    arith,
    update_many-narrow k q f rs r,
    count-key_of_find k q rs r,
    update_many-absent k f rs,
    update_many_both-absent k q f rs,
  )

  count-key_of_any :
      (p : A → Bool) (rs : List A) (r : A)
      → find_first p rs ≡ some r
      → 0 < count (has_key (key r)) rs
  unfolding find_first count
  count-key_of_any p [] r h = ground arith
  count-key_of_any p (x ∷ rs) r h = ground (arith, count-key_of_any p rs r)

  -- A row that was found in some way is the row of its key.
  pub find_first-own :
      (p : A → Bool) (rs : List A) (r : A)
      → count (has_key (key r)) rs ≤ 1
      → find_first p rs ≡ some r
      → find_first (has_key (key r)) rs ≡ some r
  unfolding find_first count
  find_first-own p [] r u h = ground arith
  find_first-own p (x ∷ rs) r u h = ground (arith, find_first-own p rs r, count-key_of_any p rs r)
