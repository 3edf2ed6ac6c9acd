-- ===== src/Products/Service.antt =====
-- apps/api/src/products/product.service.ts: the methods that change a product, and those that show
-- one. Times are arguments, and so are the ids of new rows.
use gamja_market.Base.{
  take, ℕ, suc, Bool, true, false, ◌&&◌, ◌||◌, not, Option, none, some, List, [], ◌∷◌, map, ◌==◌,
  leb, is_some,
}
use gamja_market.Base.Text.{Text, text, text_eq, trim, to_string}
use gamja_market.Schema.{
  ProductStatus, is_active, is_reserved, Product, ProductImage, Neighborhood, Db, find_first,
  find_many, sort_by,
}
use gamja_market.Schema.Action.{
  Action, Void, lift, gets, or_raise, raise_if, ◌>>=◌, ◌>>◌, not_found, conflict, forbidden, p2025,
  product_not_found, product_locked_by_active_trade, neighborhood_not_available, image_not_found,
}
use gamja_market.Schema.Tables.{update_product, create_product}
use gamja_market.Trades.Model.{is_active_trade}
use gamja_market.Accounts.{AuthenticatedUser}
use gamja_market.Products.Images.{ImageInput, StoredImage, images_for_storage}

-- `INITIAL_NEIGHBORHOOD_CODE`
abbrev pub initial_neighborhood_code : Text
initial_neighborhood_code = text "KR-CH-UC-SARIM"

pub record ProductView : Type 0 where
  pub id : ℕ
  pub title : Text
  pub description : Text
  pub price_krw : Text
  pub category : Text
  pub status : ProductStatus
  pub is_mine : Bool
  pub neighborhood_id : ℕ
  pub created_at : ℕ
  pub images : List ProductImage

abbrev pub is_user : ℕ → Option ℕ → Bool
is_user id none = false
is_user id (some viewer) = id == viewer

abbrev pub is_before_image : ProductImage → ProductImage → Bool
is_before_image a b = leb a.position b.position

-- `serialize` of a product with its images in order. The neighborhood stays its id, and the bytes of
-- an image stay with it.
unfoldable pub serialize : Db → Product → Option ℕ → ProductView
serialize db product viewer = record {
  id = product.id;
  title = product.title;
  description = product.description;
  price_krw = to_string product.price_krw;
  category = product.category;
  status = product.status;
  is_mine = is_user product.author_id viewer;
  neighborhood_id = product.neighborhood_id;
  created_at = product.created_at;
  images = sort_by is_before_image (find_many (λ i. i.product_id == product.id) db.images);
}

-- `user.neighborhood?.code ?? INITIAL_NEIGHBORHOOD_CODE`
abbrev pub code_of : Option Text → Text
code_of none = initial_neighborhood_code
code_of (some code) = code

unfoldable pub ensure_neighborhood : AuthenticatedUser → Action Neighborhood
ensure_neighborhood user = do
  found ← gets λ db. find_first (λ n. text_eq n.code (code_of user.neighborhood)) db.neighborhoods
  or_raise (forbidden neighborhood_not_available) found

abbrev pub is_deleted : ProductStatus → Bool
is_deleted ProductStatus.deleted = true
is_deleted _ = false

unfoldable pub owned_product : ℕ → ℕ → Action Product
owned_product id user = do
  found ← gets λ db.
      find_first (λ p. p.id == id && (p.author_id == user && not (is_deleted p.status))) db.products
  or_raise (not_found product_not_found) found

-- `CreateProductDto`
pub record ProductInput : Type 0 where
  pub title : Text
  pub description : Text
  pub price_krw : ℕ
  pub category : Text
  pub images : List ImageInput

abbrev pub new_product : ℕ → ℕ → ℕ → ℕ → ProductInput → Product
new_product now id author_id neighborhood_id input = record {
  id = id;
  author_id = author_id;
  neighborhood_id = neighborhood_id;
  title = trim input.title;
  description = trim input.description;
  price_krw = input.price_krw;
  category = trim input.category;
  status = ProductStatus.active;
  created_at = now;
}

-- The image rows of a new product; the ids run from `id` on.
unfoldable pub image_rows : ℕ → ℕ → List StoredImage → List ProductImage
image_rows id product_id [] = []
image_rows id product_id (image ∷ images) =
    record {
      id = id;
      product_id = product_id;
      mime_type = image.mime_type;
      byte_size = image.byte_size;
      alt_text = image.alt_text;
      bytes = image.bytes;
      position = image.position;
    }
    ∷ image_rows (suc id) product_id images

-- `create` from the images on.
unfoldable pub create_in :
    (Text → List ℕ)
    → ℕ
    → ℕ
    → ℕ
    → AuthenticatedUser
    → ProductInput
    → Neighborhood
    → Action ProductView
create_in decode now id image_id user input neighborhood = do
  images ← lift (images_for_storage decode input.images)
  let product = new_product now id user.id neighborhood.id input
  create_product product (image_rows image_id id images)
  gets λ db. serialize db product (some user.id)

unfoldable pub create :
    (Text → List ℕ) → ℕ → ℕ → ℕ → AuthenticatedUser → ProductInput → Action ProductView
create decode now id image_id user input = do
  neighborhood ← ensure_neighborhood user
  create_in decode now id image_id user input neighborhood

-- `UpdateProductDto`: what is missing, empty or "0"-less stays. A price is a string of digits there,
-- so it is never empty.
pub record ProductChange : Type 0 where
  pub title : Option Text
  pub description : Option Text
  pub price_krw : Option ℕ
  pub category : Option Text

-- `...(input.title ? { title: input.title.trim() } : {})`
abbrev pub changed_text : Option Text → Text → Text
changed_text none old = old
changed_text (some []) old = old
changed_text (some (c ∷ cs)) old = trim (c ∷ cs)

abbrev pub changed_price : Option ℕ → ℕ → ℕ
changed_price none old = old
changed_price (some new) old = new

abbrev pub as_changed : ProductChange → Product → Product
as_changed input p = record p {
  title = changed_text input.title p.title;
  description = changed_text input.description p.description;
  price_krw = changed_price input.price_krw p.price_krw;
  category = changed_text input.category p.category;
}

-- The product after an `update`, which returns it.
unfoldable pub updated_product : ℕ → (Product → Product) → ℕ → Action ProductView
updated_product id change user = do
  update_product id change
  found ← gets λ db. find_first (λ p. p.id == id) db.products
  product ← or_raise p2025 found
  gets λ db. serialize db product (some user)

unfoldable pub update : ℕ → ℕ → ProductChange → Action ProductView
update id user input = do
  existing ← owned_product id user
  raise_if (is_reserved existing.status) (conflict product_locked_by_active_trade)
  updated_product id (as_changed input) user

-- `'ACTIVE' | 'HIDDEN'`
pub data Visibility : Type 0 where
  shown hidden : Visibility

abbrev pub status_of : Visibility → ProductStatus
status_of shown = ProductStatus.active
status_of hidden = ProductStatus.hidden

abbrev pub with_status : ProductStatus → Product → Product
with_status status p = record p { status = status }

unfoldable pub set_status : ℕ → ℕ → Visibility → Action ProductView
set_status id user visibility = do
  existing ← owned_product id user
  updated_product id (with_status (status_of visibility)) user

-- `remove` of a product that was found.
unfoldable pub remove_owned : ℕ → Product → Action Void
remove_owned id existing = do
  active ← gets λ db. find_first (λ t. t.product_id == id && is_active_trade t.status) db.trades
  raise_if (is_reserved existing.status || is_some active) (conflict product_locked_by_active_trade)
  update_product id (with_status ProductStatus.deleted)

unfoldable pub remove : ℕ → ℕ → Action Void
remove id user = do existing ← owned_product id user; remove_owned id existing

-- `status: { not: DELETED }, OR: [{ status: ACTIVE }, ...(user ? [{ authorId: user.id }] : [])]`
abbrev pub is_visible : Option ℕ → Product → Bool
is_visible viewer p =
    not (is_deleted p.status) && (is_active p.status || is_user p.author_id viewer)

unfoldable pub detail : ℕ → Option ℕ → Action ProductView
detail id viewer = do
  found ← gets λ db. find_first (λ p. p.id == id && is_visible viewer p) db.products
  product ← or_raise (not_found product_not_found) found
  gets λ db. serialize db product viewer

abbrev pub is_newer : Product → Product → Bool
is_newer a b = leb b.created_at a.created_at

-- `images: { ..., take: 1 }`
abbrev pub with_cover : ProductView → ProductView
with_cover view = record view { images = take 1 view.images }

unfoldable pub mine : ℕ → Action (List ProductView)
mine user = gets λ db.
    map (λ p. with_cover (serialize db p (some user)))
      (sort_by is_newer
        (find_many (λ p. p.author_id == user && not (is_deleted p.status)) db.products))

unfoldable pub image : ℕ → ℕ → Option ℕ → Action ProductImage
image product_id image_id viewer = do
  found ← gets λ db. find_first (λ p. p.id == product_id && is_visible viewer p) db.products
  product ← or_raise (not_found product_not_found) found
  stored ← gets λ db. find_first (λ i. i.id == image_id && i.product_id == product_id) db.images
  or_raise (not_found image_not_found) stored
