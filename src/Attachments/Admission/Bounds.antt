-- ===== src/Attachments/Admission/Bounds.antt =====
-- What an admitted attachments field holds: runtime/src/attachments.rs, `admit`.
use Prim.Native.String.{len, count}
use shimpz_brain.Base.{
  ℕ, ◌*◌, ◌≤◌, String, str_eq, true, false, some, List, ◌≡◌, ◌≢◌, ◌∷◌, eq_iff, length, map, filter,
  filter_map, All, All-collect, collect, collect-length, leb, leb→le, unwrap_or, [], arith, ok,
}
use shimpz_brain.Json.Types.{Value, null, get}
use shimpz_brain.Json.{as_array, contains}
use shimpz_brain.Python.{Python}
use shimpz_brain.Text.{hex}
use shimpz_brain.Attachments.Types.{
  Content, text_content, image_content, opaque_content, Attachment, max_attachments,
  max_field_bytes, max_file_bytes, max_images, max_total_chars, max_total_bytes, image_edge,
  image_pixels, max_image_bytes, encoded_bound, opaque_reasons, is_image,
}
use shimpz_brain.Attachments.Admission.{
  Rules, magic_of, bytes_start, name_admitted, edge, size_of, text_of, distinct, total,
  text_admitted, image, text_item, opaque_item, content, media_type_admitted, attachment,
  within_message, admitted, admit,
}

-- No text stands twice.
abbrev pub Distinct : List String → Type 0
Distinct [] = Unit
Distinct (x ∷ xs) = All (λ y. y ≢ x) xs × Distinct xs

contains-All : (xs : List String) (x : String) → contains xs x ≡ false → All (λ y. y ≢ x) xs
contains-All [] x h = tt
contains-All (y ∷ xs) x h = (ground (arith, eq_iff y x), contains-All xs x (ground arith))

pub distinct-Distinct : (xs : List String) → distinct xs ≡ true → Distinct xs
unfolding distinct
distinct-Distinct [] h = tt
distinct-Distinct (x ∷ xs) h =
    (contains-All xs x (ground arith), distinct-Distinct xs (ground arith))

module _ (py : Python) (rules : Rules) where
  -- An image: its declared shape within the bounds, and its bytes as its type and digest say.
  pub record IsImage (media_type : String) (width height : ℕ) (base64 sha256 : String)
      : Type 0 where
    pub magic : List ℕ
    pub known : magic_of media_type ≡ some magic
    pub wide : (1 ≤ width) × (width ≤ image_edge)
    pub high : (1 ≤ height) × (height ≤ image_edge)
    pub pixels : width * height ≤ image_pixels
    pub encoded : count base64 ≤ encoded_bound
    pub bytes : List ℕ
    pub decoded : rules.decode base64 ≡ some bytes
    pub small : length bytes ≤ max_image_bytes
    pub starts : bytes_start bytes magic ≡ true
    pub digest : str_eq (hex (rules.digest bytes)) sha256 ≡ true

  abbrev pub IsContent : Content → Type 0
  IsContent (text_content words pdf) = text_admitted py rules words ≡ true
  IsContent (image_content media_type width height base64 sha256) =
      IsImage media_type width height base64 sha256
  IsContent (opaque_content reason) = contains opaque_reasons reason ≡ true

  pub record IsPrepared (a : Attachment) : Type 0 where
    pub id_ok : rules.file_id a.id ≡ true
    pub name_ok : name_admitted a.name ≡ true
    pub media_type_ok : media_type_admitted py rules a.media_type ≡ true
    pub size_ok : (1 ≤ a.size) × (a.size ≤ max_file_bytes)
    pub sha256_ok : rules.sha256 a.sha256 ≡ true
    pub content_ok : IsContent a.content

  edge_bounds :
      (v : Value) (key : String) (n : ℕ) → edge v key ≡ some n → (1 ≤ n) × (n ≤ image_edge)
  unfolding edge
  edge_bounds v key n h = ground arith

  size_bounds : (v : Value) (n : ℕ) → size_of v ≡ some n → (1 ≤ n) × (n ≤ max_file_bytes)
  unfolding size_of
  size_bounds v n h = ground arith

  image-IsContent : (v : Value) (c : Content) → image py rules v ≡ some c → IsContent c
  unfolding image
  image-IsContent v (image_content media_type width height base64 sha256) h = record {
    magic = unwrap_or (magic_of media_type) [];
    known = ground arith;
    wide = edge_bounds v "width" width (ground arith);
    high = edge_bounds v "height" height (ground arith);
    pixels = ground arith;
    encoded = ground arith;
    bytes = unwrap_or (rules.decode base64) [];
    decoded = ground arith;
    small = ground arith;
    starts = ground arith;
    digest = ground arith;
  }
  image-IsContent v (text_content words pdf) h = absurd (ground arith)
  image-IsContent v (opaque_content reason) h = absurd (ground arith)

  text_item-IsContent : (v : Value) (c : Content) → text_item py rules v ≡ some c → IsContent c
  unfolding text_item
  text_item-IsContent v c h = ground arith

  opaque_item-IsContent : (v : Value) (c : Content) → opaque_item py rules v ≡ some c → IsContent c
  unfolding opaque_item
  opaque_item-IsContent v c h = ground arith

  content-IsContent : (v : Value) (c : Content) → content py rules v ≡ some c → IsContent c
  unfolding content
  content-IsContent v c h =
      ground (arith, text_item-IsContent v c, image-IsContent v c, opaque_item-IsContent v c)

  attachment-IsPrepared :
      (v : Value) (a : Attachment) → attachment py rules v ≡ some a → IsPrepared a
  unfolding attachment
  attachment-IsPrepared v a h = record {
    id_ok = ground arith;
    name_ok = ground arith;
    media_type_ok = ground arith;
    size_ok = size_bounds v a.size (ground arith);
    sha256_ok = ground arith;
    content_ok = content-IsContent (unwrap_or (get v "content") null) a.content (ground arith);
  }

  abbrev texts : List Attachment → List String
  texts = filter_map (λ (item : Attachment). text_of item.content)

  pub record IsAdmitted (items : List Attachment) : Type 0 where
    pub prepared : All IsPrepared items
    pub few : length items ≤ max_attachments
    pub ids : Distinct (map (λ (item : Attachment). item.id) items)
    pub images : length (filter (λ (item : Attachment). is_image item.content) items) ≤ max_images
    pub chars : total count (texts items) ≤ max_total_chars
    pub bytes : total len (texts items) ≤ max_total_bytes

  -- Inversion of an admission.
  pub admitted_parts :
      (raw : Value) (items : List Attachment)
      → admit py rules raw ≡ ok items
      → (collect (attachment py rules) (unwrap_or (as_array raw) []) ≡ some items)
        × (leb (length (unwrap_or (as_array raw) [])) max_attachments ≡ true)
        × (distinct (map (λ (item : Attachment). item.id) items) ≡ true)
        × (within_message py rules raw items ≡ true)
  unfolding admit admitted
  admitted_parts raw items h = ground arith

  -- Whatever field is admitted, it holds at most eight files with different ids, each within the
  -- bounds of its kind, an image with the bytes that its type and digest say, at most four of them
  -- images. The texts together are within the bounds of one message, and so is the whole field.
  pub admit-IsAdmitted :
      (raw : Value) (items : List Attachment)
      → admit py rules raw ≡ ok items
      → IsAdmitted items × (len (rules.canonical raw) ≤ max_field_bytes)
  unfolding within_message
  admit-IsAdmitted raw items h =
      let (collected, few, ids, within) = admitted_parts raw items h in
      (
        record {
          prepared = All-collect IsPrepared _ attachment-IsPrepared _ _ collected;
          few = omega (
            arith,
            collect-length (attachment py rules) (unwrap_or (as_array raw) []) items collected,
            leb→le (length (unwrap_or (as_array raw) [])) max_attachments few,
          );
          ids = distinct-Distinct _ ids;
          images = ground (arith, within);
          chars = ground (arith, within);
          bytes = ground (arith, within);
        },
        ground (arith, within),
      )
