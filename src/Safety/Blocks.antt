-- ===== src/Safety/Blocks.antt =====
-- The blocks of apps/api/src/safety/safety.service.ts.
use gamja_market.Base.{
  ℕ, ◌≡◌, refl, Bool, true, false, ◌&&◌, ◌||◌, none, some, List, [], ◌∷◌, arith, ◌==◌, is_some,
  if◌then◌else◌, inl, inr, Bool-cases, Option-cases,
}
use gamja_market.Schema.{Block, Db, find_first, delete_many}
use gamja_market.Schema.Action.{ok}
use gamja_market.Schema.Rows.Laws.{find_none-count, find-count_pos}
use gamja_market.Safety.{
  unblocked, is_blocked, is_block, block, unblock, upsert_block, blocked, SafetyRelationshipChange,
}

module _ {A : Type 0} (p q : A → Bool) (w : (a : A) → p a ≡ true → q a ≡ true) where
  find_first-wider :
      (rs : List A) (r : A) → find_first p rs ≡ some r → is_some (find_first q rs) ≡ true
  unfolding find_first
  find_first-wider [] r h = ground arith
  find_first-wider (x ∷ rs) r h = ground (arith, w x, find_first-wider rs r)

-- A block in one direction blocks both.
blocked_by :
    (user other : ℕ) (db : Db) (b : Block)
    → find_first (is_block user other) db.blocks ≡ some b
    → (is_blocked user other db ≡ true) × (is_blocked other user db ≡ true)
unfolding is_blocked
blocked_by user other db b h = (
  find_first-wider (is_block user other)
      (λ b.
        (b.blocker_id == user && b.blocked_id == other)
        || (b.blocker_id == other && b.blocked_id == user))
      (λ a e. ground arith) db.blocks b h,
  find_first-wider (is_block user other)
      (λ b.
        (b.blocker_id == other && b.blocked_id == user)
        || (b.blocker_id == user && b.blocked_id == other))
      (λ a e. ground arith) db.blocks b h,
)

upsert_block-found :
    (now user other : ℕ) (db : Db)
    → (b : Block) × (find_first (is_block user other) (upsert_block now user other db).1.blocks
        ≡ some b)
      × (find_first (λ u. u.id == other) (upsert_block now user other db).1.users
          ≡ find_first (λ u. u.id == other) db.users)
unfolding upsert_block find_first
upsert_block-found now user other db =
    elim (Option-cases (find_first (is_block user other) db.blocks)) [
      | inl e ↦ (
        record { blocker_id = user; blocked_id = other; created_at = now },
        ground arith,
        ground arith,
      )
      | inr (b, e) ↦ (b, ground arith, ground arith)
    ]

upsert_block-ok : (now user other : ℕ) (db : Db) → (upsert_block now user other db).0 ≡ ok tt
unfolding upsert_block
upsert_block-ok now user other db = ground arith

upsert_block-again :
    (now user other : ℕ) (db : Db) (b : Block)
    → find_first (is_block user other) db.blocks ≡ some b
    → upsert_block now user other db ≡ (ok tt, db)
unfolding upsert_block
upsert_block-again now user other db b e = ground arith

-- After a block the two users are blocked, whichever of them asks, and the listeners are told once;
-- the same block a second time changes nothing.
pub block-is_blocked :
    (now now' user other : ℕ) (db db' : Db) (answer : ℕ × List SafetyRelationshipChange)
    → block now user other db ≡ (ok answer, db')
    → (is_blocked user other db' ≡ true)
      × (is_blocked other user db' ≡ true)
      × (answer ≡ (other, blocked user other ∷ []))
      × (block now' user other db' ≡ (ok answer, db'))
unfolding block
block-is_blocked now now' user other db db' answer h = elim (Bool-cases (user == other)) [
  | inl e ↦ absurd (ground arith)
  | inr e ↦ elim (Option-cases (find_first (λ u. u.id == other) db.users)) [
    | inl n ↦ absurd (ground arith)
    | inr (u, n) ↦
        let (b, f, us) = upsert_block-found now user other db in
        let m : (answer ≡ (other, blocked user other ∷ []))
            × (db' ≡ (upsert_block now user other db).1) =
          ground (arith, upsert_block-ok now user other db) in
        let f' : find_first (is_block user other) db'.blocks ≡ some b = rw m.1 f in
        let (x, y) = blocked_by user other db' b f' in
        (x, y, m.0, ground (arith, m, us, upsert_block-again now' user other db' b f'))
  ]
]

module _ {A : Type 0} (p q o : A → Bool) (split : (a : A) → o a ≡ p a || q a)
    (apart : (a : A) → p a ≡ true → q a ≡ false) where
  find_first-delete : (rs : List A) → find_first p (delete_many p rs) ≡ none
  unfolding find_first delete_many
  find_first-delete [] = refl
  find_first-delete (x ∷ rs) = ground (arith, find_first-delete rs)

  find_first-delete_other :
      (rs : List A) → is_some (find_first o (delete_many p rs)) ≡ is_some (find_first q rs)
  unfolding find_first delete_many
  find_first-delete_other [] = refl
  find_first-delete_other (x ∷ rs) = ground (arith, split x, apart x, find_first-delete_other rs)

-- A removal of a block leaves no block of the user on the other; the listeners are told when there
-- was one, and the two are blocked after it just when the other blocks the user.
pub unblock-is_blocked :
    (user other : ℕ) (db : Db)
    → (user == other) ≡ false
    → let r = unblock user other db in
      (r.0
        ≡ ok (
          other,
          if is_some (find_first (is_block user other) db.blocks)
              then unblocked user other ∷ []
              else [],
        ))
      × (find_first (is_block user other) r.1.blocks ≡ none)
      × (is_blocked user other r.1 ≡ is_some (find_first (is_block other user) db.blocks))
unfolding unblock is_blocked
unblock-is_blocked user other db ne =
    let split : (b : Block)
        → ((b.blocker_id == user && b.blocked_id == other)
            || (b.blocker_id == other && b.blocked_id == user))
          ≡ is_block user other b || is_block other user b =
      λ b. refl in
    let apart : (b : Block) → is_block user other b ≡ true → is_block other user b ≡ false =
      λ b e. ground arith in
    (
      ground (
        arith,
        find-count_pos (is_block user other) db.blocks,
        find_none-count (is_block user other) db.blocks,
      ),
      find_first-delete (is_block user other) (is_block other user) _ split apart db.blocks,
      find_first-delete_other (is_block user other) (is_block other user) _ split apart db.blocks,
    )
