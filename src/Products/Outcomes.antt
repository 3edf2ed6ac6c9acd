-- ===== src/Products/Outcomes.antt =====
-- What the methods of apps/api/src/products/product.service.ts answer, and what they have found.
use gamja_market.Base.{
  ap, ltb, ◌||◌, ◌⊎◌, Option, ℕ, suc, ◌≡◌, refl, ◌≤◌, true, false, ◌&&◌, not, some, List, [], ◌∷◌,
  arith, ◌==◌, inl, inr, length, Bool-cases, Option-cases,
}
use gamja_market.Base.Text.{trim, Text}
use gamja_market.Schema.{
  Product, ProductStatus, Db, is_active, is_reserved, find_first, update_many, count,
}
use gamja_market.Schema.Action.{Void, ok}
use gamja_market.Schema.Action.Laws.{Result-cases}
use gamja_market.Schema.Tables.{update_product}
use gamja_market.Schema.Rows.Laws.{find_first_holds, find_first-update_many, count-find_none}
use gamja_market.Trades.Model.{is_active_trade}
use gamja_market.Trades.Exclusive.{IsReserved, selects}
use gamja_market.Products.Images.{
  ImageInput, StoredImage, images_from, images_for_storage, check_image, IsStorable, image_mime,
  max_image_bytes,
}
use gamja_market.Products.Service.{
  ProductView, owned_product, updated_product, set_status, remove, remove_owned, detail, shown,
  with_status, is_deleted, is_visible, serialize,
}

-- A product that is removed was the caller's, and it was neither deleted nor reserved; none of its
-- trades was requested, accepted, delivered or disputed. It is deleted, and nothing else changes.
pub remove-Removed :
    (id user : ℕ) (db db' : Db) (v : Void)
    → remove id user db ≡ (ok v, db')
    → (p : Product) × (find_first
          (λ r. r.id == id && (r.author_id == user && not (is_deleted r.status)))
          db.products
        ≡ some p)
      × (is_reserved p.status ≡ false)
      × (count (λ t. t.product_id == id && is_active_trade t.status) db.trades ≡ 0)
      × (db' ≡ record db {
        products = update_many (λ r. r.id == id) (with_status ProductStatus.deleted) db.products;
      })
unfolding remove remove_owned owned_product update_product
remove-Removed id user db db' v h =
    let q = λ (r : Product). r.id == id && (r.author_id == user && not (is_deleted r.status)) in
    elim (Option-cases (find_first q db.products)) [
      | inl e ↦ absurd (ground arith)
      | inr (p, e) ↦
          elim (Option-cases
            (find_first (λ t. t.product_id == id && is_active_trade t.status) db.trades)) [
              | inl n ↦ (
                p,
                e,
                ground arith,
                count-find_none (λ t. t.product_id == id && is_active_trade t.status) db.trades n,
                ground arith,
              )
              | inr (t, n) ↦ absurd (ground arith)
            ]
    ]

-- `detail` shows a product that is not deleted, and that is offered or of the viewer; it changes
-- nothing.
pub detail-visible :
    (id : ℕ) (viewer : Option ℕ) (db db' : Db) (view : ProductView)
    → detail id viewer db ≡ (ok view, db')
    → (db' ≡ db)
      × (view.id ≡ id)
      × (is_deleted view.status ≡ false)
      × ((is_active view.status ≡ true) ⊎ (view.is_mine ≡ true))
unfolding detail serialize
detail-visible id viewer db db' view h =
    elim (Option-cases (find_first (λ p. p.id == id && is_visible viewer p) db.products)) [
      | inl e ↦ absurd (ground arith)
      | inr (p, e) ↦
          let f = find_first_holds (λ p. p.id == id && is_visible viewer p) db.products p e in
          elim (Bool-cases (is_active p.status)) [
            | inl a ↦ (ground arith, ground arith, ground arith, inl (ground arith))
            | inr a ↦ (ground arith, ground arith, ground arith, inr (ground arith))
          ]
    ]

images_from-IsStorable :
    (decode : Text → List ℕ) (position : ℕ) (inputs : List ImageInput) (images : List StoredImage)
    → images_from decode position inputs ≡ ok images
    → IsStorable decode position inputs images × (length images ≡ length inputs)
unfolding images_from check_image IsStorable
images_from-IsStorable decode position [] [] h = ground arith
images_from-IsStorable decode position [] (image ∷ images) h = absurd (ground arith)
images_from-IsStorable decode position (i ∷ inputs) images h =
    let buffer = decode i.data_base64 in
    elim (Option-cases (image_mime buffer)) [
      | inl e ↦ absurd (ground arith)
      | inr (mime, e) ↦ elim (Result-cases (images_from decode (suc position) inputs)) [
        | inl (x, r) ↦ absurd (ground arith)
        | inr (rest, r) ↦
            let (k, l) = images_from-IsStorable decode (suc position) inputs rest r in
            elim (Bool-cases (length buffer == 0 || ltb max_image_bytes (length buffer))) [
              | inl b ↦ absurd (ground arith)
              | inr b ↦
                  let q : images
                      ≡ record {
                        bytes = buffer;
                        byte_size = length buffer;
                        mime_type = mime;
                        alt_text = trim i.alt_text;
                        position = position;
                      }
                        ∷ rest =
                    ground arith in
                  rw q ((refl, refl, refl, refl, ground arith, ground arith, e, k), ap suc l)
            ]
      ]
    ]

-- When `imagesForStorage` accepts the images of a request, as many are stored, one for one and in
-- order: each has the bytes its base64 text decodes to, its trimmed alternative text, its place as
-- position, the size of its bytes, between one byte and five megabytes, and the type its bytes show.
pub images_for_storage-IsStorable :
    (decode : Text → List ℕ) (inputs : List ImageInput) (images : List StoredImage)
    → images_for_storage decode inputs ≡ ok images
    → IsStorable decode 0 inputs images × (length images ≡ length inputs)
unfolding images_for_storage
images_for_storage-IsStorable decode inputs images h =
    images_from-IsStorable decode 0 inputs images h

-- What `setStatus` does to a product that is offered again while one of its trades is accepted,
-- delivered, confirmed or disputed: the product is offered beside the trade.
pub set_status-reoffers :
    (id user : ℕ) (db db' : Db) (view : ProductView)
    → set_status id user shown db ≡ (ok view, db')
    → 1 ≤ count (selects id) db.trades
    → ¬ IsReserved db'
unfolding set_status owned_product updated_product update_product
set_status-reoffers id user db db' view h c k =
    let q = λ (r : Product). r.id == id && (r.author_id == user && not (is_deleted r.status)) in
    elim (Option-cases (find_first q db.products)) [
      | inl e ↦ absurd (ground arith)
      | inr (p, e) ↦ elim (Option-cases (find_first (λ r. r.id == id) db.products)) [
        | inl n ↦ absurd (ground arith)
        | inr (r, n) ↦
            let m : db' ≡ record db {
              products =
                  update_many (λ r. r.id == id) (with_status ProductStatus.active) db.products;
            } =
              ground arith in
            ground (
              arith,
              m,
              k.one_selected id,
              find_first_holds (λ r. r.id == id) db.products r n,
              find_first-update_many (λ x. x.id) id (λ r. r.id == id)
                  (with_status ProductStatus.active) db.products (λ r. refl),
            )
      ]
    ]
