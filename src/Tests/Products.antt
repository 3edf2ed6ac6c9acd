-- ===== src/Tests/Products.antt =====
-- The theorems on the products at the small market.
use gamja_market.Base.{
  ℕ, ◌≡◌, refl, ◌⊎◌, arith, ◌&&◌, ◌==◌, true, false, not, none, some, [], ◌∷◌, List, length,
}
use gamja_market.Base.Text.{Text, text, text_eq, trim}
use gamja_market.Schema.{
  ProductStatus, Product, Db, is_active, is_reserved, find_first, update_many, count,
}
use gamja_market.Schema.Action.{ok}
use gamja_market.Schema.Tables.{update_product}
use gamja_market.Trades.Model.{is_active_trade}
use gamja_market.Trades.Exclusive.{IsReserved}
use gamja_market.Products.Images.{
  ImageInput, StoredImage, IsStorable, images_for_storage, images_from, check_image, image_mime,
}
use gamja_market.Products.Service.{
  ProductView, is_deleted, with_status, remove, remove_owned, owned_product, detail, serialize,
  set_status, updated_product, shown,
}
use gamja_market.Products.Outcomes.{
  remove-Removed, detail-visible, images_for_storage-IsStorable, set_status-reoffers,
}
use gamja_market.Tests.Data.{open_market, reserved_market, camera}

-- The market where the product has no trade left.
abbrev idle_market : Db
idle_market = record open_market { trades = [] }

abbrev removed_market : Db
removed_market = record idle_market {
  products = record camera { status = ProductStatus.deleted } ∷ [];
}

idle_removed : remove 10 1 idle_market ≡ (ok tt, removed_market)
unfolding remove remove_owned owned_product update_product find_first update_many
idle_removed = refl

remove-Removed_example :
    (p : Product) × (find_first
        (λ r. r.id == 10 && (r.author_id == 1 && not (is_deleted r.status)))
        idle_market.products
      ≡ some p)
    × (is_reserved p.status ≡ false)
    × (count (λ t. t.product_id == 10 && is_active_trade t.status) idle_market.trades ≡ 0)
    × (removed_market ≡ record idle_market {
      products =
          update_many (λ r. r.id == 10) (with_status ProductStatus.deleted) idle_market.products;
    })
remove-Removed_example = remove-Removed 10 1 idle_market removed_market tt idle_removed

abbrev camera_view : ProductView
camera_view = serialize open_market (record camera { status = ProductStatus.active }) none

camera_shown : detail 10 none open_market ≡ (ok camera_view, open_market)
unfolding detail find_first
camera_shown = refl

detail-visible_example :
    (open_market ≡ open_market)
    × (camera_view.id ≡ 10)
    × (is_deleted camera_view.status ≡ false)
    × ((is_active camera_view.status ≡ true) ⊎ (camera_view.is_mine ≡ true))
detail-visible_example = detail-visible 10 none open_market open_market camera_view camera_shown

-- A JPEG of four bytes.
abbrev jpeg_bytes : Text → List ℕ
jpeg_bytes t = 255 ∷ 216 ∷ 255 ∷ 0 ∷ []

abbrev a_photo : ImageInput
a_photo = record { data_base64 = []; alt_text = text "front" }

abbrev stored_photo : StoredImage
stored_photo = record {
  bytes = 255 ∷ 216 ∷ 255 ∷ 0 ∷ [];
  byte_size = 4;
  mime_type = text "image/jpeg";
  alt_text = trim (text "front");
  position = 0;
}

photo_stored : images_for_storage jpeg_bytes (a_photo ∷ []) ≡ ok (stored_photo ∷ [])
unfolding images_for_storage images_from check_image image_mime text_eq
photo_stored = refl

images_for_storage-IsStorable_example :
    IsStorable jpeg_bytes 0 (a_photo ∷ []) (stored_photo ∷ [])
    × (length (stored_photo ∷ []) ≡ length (a_photo ∷ []))
images_for_storage-IsStorable_example =
    images_for_storage-IsStorable jpeg_bytes (a_photo ∷ []) (stored_photo ∷ []) photo_stored

abbrev reoffered_market : Db
reoffered_market = record reserved_market {
  products = record camera { status = ProductStatus.active } ∷ [];
}

camera_reoffered : set_status 10 1 shown reserved_market ≡ (
  ok (serialize reoffered_market (record camera { status = ProductStatus.active }) (some 1)),
  reoffered_market,
)
unfolding set_status owned_product updated_product update_product find_first update_many
camera_reoffered = refl

set_status-reoffers_example : ¬ IsReserved reoffered_market
unfolding count
set_status-reoffers_example =
    set_status-reoffers 10 1 reserved_market reoffered_market
      (serialize reoffered_market (record camera { status = ProductStatus.active }) (some 1))
      camera_reoffered (ground arith)
