-- ===== src/Products/Kept.antt =====
-- What the methods of apps/api/src/products/product.service.ts keep: the invariants of the database.
use gamja_market.Base.{
  Option, is_some, ◌||◌, ℕ, ◌≡◌, refl, ◌⊎◌, true, ◌&&◌, not, some, none, List, ◌++◌, ◌∷◌, arith,
  ◌==◌, inl, inr,
}
use gamja_market.Base.Text.{Text}
use gamja_market.Schema.{
  ok, p2002, err, Void, Neighborhood, product_not_found, not_found, Product, ProductImage,
  ProductStatus, Db, is_active, is_reserved, find_first, update_many, count,
}
use gamja_market.Schema.Action.{
  Result, gets, lift, or_raise, raise_if, conflict, p2025, product_locked_by_active_trade, ◌>>=◌,
}
use gamja_market.Schema.Action.Laws.{
  raise_if-reads, raise_if-keeps, or_raise-keeps, bind-keeps, Option-keeps,
}
use gamja_market.Schema.Tables.{update_product, create_product}
use gamja_market.Sound.{IsSound}
use gamja_market.Accounts.{AuthenticatedUser}
use gamja_market.Trades.Model.{is_active_trade}
use gamja_market.Trades.Exclusive.{IsExclusive, selects}
use gamja_market.Trades.Exclusive.Tables.{change-IsExclusive, offer-IsExclusive}
use gamja_market.Products.Images.{images_for_storage}
use gamja_market.Products.Service.{
  remove_owned, create_in, is_deleted, owned_product, updated_product, ensure_neighborhood, create,
  update, set_status, remove, ProductInput, ProductChange, Visibility, with_status, status_of,
  as_changed, new_product, image_rows, serialize,
}

with_products-IsSound :
    (ps : List Product) (db : Db)
    → IsSound db
    → IsExclusive ps db.trades
    → IsSound (record db { products = ps })
with_products-IsSound ps db h e = record {
  reserved = e;
  audited = h.audited;
  escrowed = h.escrowed;
}

-- A change of a product, for as long as it is not offered again with a selected trade.
abbrev pub Offers : (Product → Product) → ℕ → Db → Type 0
Offers f id db =
    (r : Product)
    → is_active (f r).status ≡ true
    → (is_active r.status ≡ true) ⊎ (count (selects id) db.trades ≡ 0)

module _ (id : ℕ) (f : Product → Product) (keeps_id : (r : Product) → (f r).id ≡ r.id) where
  update_product-IsSound :
      (db : Db) → IsSound db → Offers f id db → IsSound (update_product id f db).1
  unfolding update_product
  update_product-IsSound db h o =
      Option-keeps IsSound (find_first (λ p. p.id == id) db.products) _ (λ p. _) h
        (λ p. with_products-IsSound (update_many (λ r. r.id == id) f db.products) db h (
          change-IsExclusive db.products db.trades h.reserved (λ r. r.id == id) f keeps_id
            (λ r e a. elim (o r a) [ inl b ↦ inl b | inr b ↦ inr (ground arith) ])))

  updated_product-IsSound :
      (user : ℕ) (db : Db) → IsSound db → Offers f id db → IsSound (updated_product id f user db).1
  unfolding updated_product
  updated_product-IsSound user db h o =
      bind-keeps IsSound (update_product id f)
        (λ _. gets (λ db. find_first (λ p. p.id == id) db.products) >>= λ found.
          or_raise p2025 found >>= λ product. gets λ db. serialize db product (some user))
        db (update_product-IsSound db h o)
        (λ _.
          let db' = (update_product id f db).1 in
          bind-keeps IsSound (or_raise p2025 (find_first (λ p. p.id == id) db'.products))
            (λ product. gets λ db. serialize db product (some user)) db'
            (or_raise-keeps IsSound p2025 (find_first (λ p. p.id == id) db'.products) db'
              (update_product-IsSound db h o))
            (λ product.
              or_raise-keeps IsSound p2025 (find_first (λ p. p.id == id) db'.products) db'
                (update_product-IsSound db h o)))

module _ (id user : ℕ) (db : Db) (h : IsSound db) where
  owned_product-IsSound : IsSound (owned_product id user db).1
  unfolding owned_product
  owned_product-IsSound =
      or_raise-keeps IsSound (not_found product_not_found)
        (find_first (λ p. p.id == id && (p.author_id == user && not (is_deleted p.status)))
          db.products)
        db h

  owned_product-reads : (owned_product id user db).1 ≡ db
  unfolding owned_product
  owned_product-reads = ground arith

  pub update-IsSound : (input : ProductChange) → IsSound (update id user input db).1
  unfolding update
  update-IsSound input =
      bind-keeps IsSound (owned_product id user)
        (λ existing.
          raise_if (is_reserved existing.status) (conflict product_locked_by_active_trade) >>= λ _.
          updated_product id (as_changed input) user)
        db owned_product-IsSound
        (λ existing. rw owned_product-reads (
          bind-keeps IsSound
            (raise_if (is_reserved existing.status) (conflict product_locked_by_active_trade))
            (λ _. updated_product id (as_changed input) user) db
            (raise_if-keeps IsSound (is_reserved existing.status)
              (conflict product_locked_by_active_trade) db h)
            (λ _.
              rw
                (raise_if-reads (is_reserved existing.status)
                  (conflict product_locked_by_active_trade) db)
                (updated_product-IsSound id (as_changed input) (λ r. refl) user db h
                  (λ r a. inl a)))))

  pub set_status-IsSound :
      (visibility : Visibility)
      → (is_active (status_of visibility) ≡ true → count (selects id) db.trades ≡ 0)
      → IsSound (set_status id user visibility db).1
  unfolding set_status
  set_status-IsSound visibility free =
      bind-keeps IsSound (owned_product id user)
        (λ existing. updated_product id (with_status (status_of visibility)) user) db
        owned_product-IsSound
        (λ existing. rw owned_product-reads (
          updated_product-IsSound id (with_status (status_of visibility)) (λ r. refl) user db h
            (λ r a. inr (free a))))

  remove_owned-IsSound : (existing : Product) → IsSound (remove_owned id existing db).1
  unfolding remove_owned
  remove_owned-IsSound existing =
      let locked =
        is_reserved existing.status
        || is_some (find_first (λ t. t.product_id == id && is_active_trade t.status) db.trades) in
      let e = conflict product_locked_by_active_trade in
      bind-keeps IsSound (raise_if locked e)
        (λ _. update_product id (with_status ProductStatus.deleted)) db
        (raise_if-keeps IsSound locked e db h)
        (λ _. rw (raise_if-reads locked e db) (
          update_product-IsSound id (with_status ProductStatus.deleted) (λ r. refl) db h
            (λ r a. absurd (ground arith))))

  pub remove-IsSound : IsSound (remove id user db).1
  unfolding remove
  remove-IsSound =
      bind-keeps IsSound (owned_product id user) (remove_owned id) db owned_product-IsSound
        (λ existing. rw owned_product-reads (remove_owned-IsSound existing))

module _ (decode : Text → List ℕ) (now id image_id : ℕ) (user : AuthenticatedUser) (db : Db)
    (h : IsSound db) where
  create_product-IsSound :
      (p : Product) (images : List ProductImage) → IsSound (create_product p images db).1
  unfolding create_product
  create_product-IsSound p images = go (find_first (λ r. r.id == p.id) db.products) refl
    where
      go :
          (o : Option Product)
          → find_first (λ r. r.id == p.id) db.products ≡ o
          → IsSound
              (elim o as (λ _. Result Void × Db) [
                | some r ↦ (err p2002, db)
                | none ↦
                    (ok tt, record db { products = p ∷ db.products; images = images ++ db.images })
              ]).1
      go (some r) e = h
      go none e = record {
        reserved = offer-IsExclusive db.products db.trades h.reserved p e;
        audited = h.audited;
        escrowed = h.escrowed;
      }

  ensure_neighborhood-reads : (ensure_neighborhood user db).1 ≡ db
  unfolding ensure_neighborhood
  ensure_neighborhood-reads = ground arith

  create_in-IsSound :
      (input : ProductInput) (neighborhood : Neighborhood)
      → IsSound (create_in decode now id image_id user input neighborhood db).1
  unfolding create_in
  create_in-IsSound input neighborhood =
      let product = new_product now id user.id neighborhood.id input in
      bind-keeps IsSound (lift (images_for_storage decode input.images))
        (λ images. create_product product (image_rows image_id id images) >>= λ _.
          gets λ db. serialize db product (some user.id))
        db h
        (λ images.
          bind-keeps IsSound (create_product product (image_rows image_id id images))
            (λ _. gets λ db. serialize db product (some user.id)) db
            (create_product-IsSound product (image_rows image_id id images))
            (λ _. create_product-IsSound product (image_rows image_id id images)))

  pub create-IsSound :
      (input : ProductInput) → IsSound (create decode now id image_id user input db).1
  unfolding create
  create-IsSound input =
      bind-keeps IsSound (ensure_neighborhood user) (create_in decode now id image_id user input) db
        (rw ensure_neighborhood-reads h)
        (λ neighborhood. rw ensure_neighborhood-reads (create_in-IsSound input neighborhood))
