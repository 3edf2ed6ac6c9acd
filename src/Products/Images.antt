-- ===== src/Products/Images.antt =====
-- apps/api/src/products/product.service.ts: the images of a product, by their bytes.
use gamja_market.Base.{
  ◌%◌, ℕ, zero, suc, ◌*◌, ◌≤◌, ◌<◌, ◌≡◌, ◌&&◌, ◌||◌, Option, none, some, List, [], ◌∷◌, ◌==◌, leb,
  ltb, length, take, if◌then◌else◌,
}
use gamja_market.Base.Text.{Text, text, text_eq, trim}
use gamja_market.Schema.Action.{Result, ok, err, bad_request, invalid_image}

-- `MAX_IMAGE_BYTES`
abbrev pub max_image_bytes : ℕ
max_image_bytes = 5 * 1024 * 1024

-- `buffer.subarray(n)`
unfoldable pub drop : ℕ → List ℕ → List ℕ
drop zero bytes = bytes
drop (suc n) [] = []
drop (suc n) (b ∷ bytes) = drop n bytes

abbrev pub png_signature : List ℕ
png_signature = 137 ∷ 80 ∷ 78 ∷ 71 ∷ 13 ∷ 10 ∷ 26 ∷ 10 ∷ []

abbrev pub jpeg_signature : List ℕ
jpeg_signature = 255 ∷ 216 ∷ 255 ∷ []

-- `toString('ascii')` clears the top bit of each byte.
unfoldable pub ascii : List ℕ → Text
ascii [] = []
ascii (b ∷ bytes) = b % 128 ∷ ascii bytes

unfoldable pub image_mime : List ℕ → Option Text
unfolding drop ascii
image_mime buffer =
    if leb 8 (length buffer) && text_eq (take 8 buffer) png_signature
    then some (text "image/png")
    else if leb 3 (length buffer) && text_eq (take 3 buffer) jpeg_signature
    then some (text "image/jpeg")
    else if leb 12 (length buffer)
        && (text_eq (ascii (take 4 buffer)) (text "RIFF")
            && text_eq (ascii (take 4 (drop 8 buffer))) (text "WEBP"))
    then some (text "image/webp")
    else none

-- `ProductImageDto`
pub record ImageInput : Type 0 where
  pub data_base64 : Text
  pub alt_text : Text

-- The `data` of an image that is created.
pub record StoredImage : Type 0 where
  pub bytes : List ℕ
  pub byte_size : ℕ
  pub mime_type : Text
  pub alt_text : Text
  pub position : ℕ

-- `!mimeType || buffer.length === 0 || buffer.length > MAX_IMAGE_BYTES`
unfoldable pub check_image : List ℕ → Text → ℕ → Option Text → Result StoredImage
check_image buffer alt_text position none = err (bad_request invalid_image)
check_image buffer alt_text position (some mime_type) =
    if length buffer == 0 || ltb max_image_bytes (length buffer)
    then err (bad_request invalid_image)
    else ok (record {
      bytes = buffer;
      byte_size = length buffer;
      mime_type = mime_type;
      alt_text = trim alt_text;
      position = position;
    })

abbrev pub cons_result : Result StoredImage → Result (List StoredImage) → Result (List StoredImage)
cons_result (err e) rest = err e
cons_result (ok image) (err e) = err e
cons_result (ok image) (ok images) = ok (image ∷ images)

-- `imagesForStorage`, from a position on; `decode` is `Buffer.from(_, 'base64')`.
unfoldable pub images_from : (Text → List ℕ) → ℕ → List ImageInput → Result (List StoredImage)
images_from decode position [] = ok []
images_from decode position (image ∷ images) =
    let rest = images_from decode (suc position) images in
    let buffer = decode image.data_base64 in
    cons_result (check_image buffer image.alt_text position (image_mime buffer)) rest

unfoldable pub images_for_storage : (Text → List ℕ) → List ImageInput → Result (List StoredImage)
unfolding images_from
images_for_storage decode images = images_from decode 0 images

-- The images that are stored for those of a request, from a position on, one for one.
unfoldable pub IsStorable : (Text → List ℕ) → ℕ → List ImageInput → List StoredImage → Type 0
IsStorable decode position [] [] = Unit
IsStorable decode position [] (image ∷ images) = ⊥
IsStorable decode position (input ∷ inputs) [] = ⊥
IsStorable decode position (input ∷ inputs) (image ∷ images) =
    (image.bytes ≡ decode input.data_base64)
    × (image.alt_text ≡ trim input.alt_text)
    × (image.position ≡ position)
    × (image.byte_size ≡ length image.bytes)
    × (0 < image.byte_size)
    × (image.byte_size ≤ 5242880)
    × (image_mime image.bytes ≡ some image.mime_type)
    × IsStorable decode (suc position) inputs images
