-- ===== src/Attachments/Admission.antt =====
-- `admit` of runtime/src/attachments.rs. `Rules` holds the Team protocol's patterns, the canonical
-- encoder, the base64 decoder and the digest of bytes.
pub mod Bounds
pub mod Again
use Prim.Native.String.{len, count}
use shimpz_brain.Base.{
  ℕ, ◌+◌, ◌*◌, String, Char, code, str_eq, Bool, true, false, not, ◌&&◌, ◌||◌, Option, none, some,
  List, [], ◌∷◌, map, ltb, leb, ◌==◌, if◌then◌else◌, ◌>>=◌, ◌>>◌, then_some, length, collect,
  filter, filter_map, is_empty, Result, ok, err,
}
use shimpz_brain.Base.Int.{pos}
use shimpz_brain.Json.Types.{Value, Number, num, get}
use shimpz_brain.Json.{str_of, u64_of, bool_of, as_array, has_exactly, contains}
use shimpz_brain.Errors.{BrainError, contract}
use shimpz_brain.Python.{Python}
use shimpz_brain.Text.{hex, any_char}
use shimpz_brain.Attachments.Types.{
  Content, text_content, image_content, opaque_content, Attachment, max_attachments, max_file_bytes,
  max_filename_bytes, max_media_type_chars, max_images, max_text_chars, max_text_bytes,
  max_total_chars, max_total_bytes, image_edge, image_pixels, max_image_bytes, encoded_bound,
  max_field_bytes, opaque_reasons, is_image,
}

pub record Rules : Type 0 where
  pub file_id : String → Bool  -- `FILE_ID_RE.is_full`
  pub media_type : String → Bool  -- `MEDIA_TYPE_RE.is_full`
  pub sha256 : String → Bool  -- `SHA256_RE.is_full`
  pub canonical : Value → String  -- `dumps(value, SORTED)`
  pub quoted : Value → String  -- `dumps(value, ASCII)`
  pub decode : String → Option (List ℕ)  -- `BASE64.decode(..).ok()`
  pub digest : List ℕ → List ℕ  -- `Sha256::digest` of bytes

-- `image/jpeg` and `image/png` with the bytes they start with.
unfoldable pub magic_of : String → Option (List ℕ)
magic_of media_type =
    if str_eq media_type "image/jpeg"
    then some (255 ∷ 216 ∷ 255 ∷ [])
    else if str_eq media_type "image/png"
    then some (137 ∷ 80 ∷ 78 ∷ 71 ∷ 13 ∷ 10 ∷ 26 ∷ 10 ∷ [])
    else none

-- `<[u8]>::starts_with`.
unfoldable pub bytes_start : List ℕ → List ℕ → Bool
bytes_start bytes [] = true
bytes_start [] (m ∷ magic) = false
bytes_start (b ∷ bytes) (m ∷ magic) = (b == m) && bytes_start bytes magic

unfoldable pub name_admitted : String → Bool
name_admitted name =
    leb 1 (len name)
    && leb (len name) max_filename_bytes
    && not (any_char (λ c. ltb (code c) 32 || (code c == 127)) name)

-- An edge of an image.
unfoldable pub edge : Value → String → Option ℕ
edge value key = do n ← u64_of value key; then_some (leb 1 n && leb n image_edge); some n

whole_of : Value → Option ℕ
whole_of (num (Number.int (pos n))) = some n
whole_of _ = none

unfoldable pub size_of : Value → Option ℕ
unfolding whole_of
size_of item = do
  value ← get item "size"
  n ← whole_of value
  then_some (leb 1 n && leb n max_file_bytes)
  some n

abbrev pub item_fields : List String
item_fields = "id" ∷ "name" ∷ "media_type" ∷ "size" ∷ "sha256" ∷ "content" ∷ []

abbrev pub text_fields : List String
text_fields = "type" ∷ "text" ∷ "pdf" ∷ []

abbrev pub image_fields : List String
image_fields = "type" ∷ "media_type" ∷ "width" ∷ "height" ∷ "base64" ∷ "sha256" ∷ []

abbrev pub opaque_fields : List String
opaque_fields = "type" ∷ "reason" ∷ []

-- `HashSet` of the ids is as large as their list: no id stands twice.
unfoldable pub distinct : List String → Bool
distinct [] = true
distinct (id ∷ ids) = not (contains ids id) && distinct ids

unfoldable pub text_of : Content → Option String
text_of (text_content words pdf) = some words
text_of _ = none

-- `iter().sum()` of the lengths, which memory bounds.
abbrev pub total : (String → ℕ) → List String → ℕ
total size [] = 0
total size (s ∷ ss) = size s + total size ss

module _ (py : Python) (rules : Rules) where
  unfoldable pub text_admitted : String → Bool
  text_admitted words =
      not (is_empty (py.strip words))
      && leb (count words) max_text_chars
      && leb (len words) max_text_bytes

  unfoldable pub image : Value → Option Content
  image value = do
    media_type ← str_of value "media_type"
    magic ← magic_of media_type
    width ← edge value "width"
    height ← edge value "height"
    encoded ← str_of value "base64"
    sha256 ← str_of value "sha256"
    then_some (leb (width * height) image_pixels && leb (count encoded) encoded_bound)
    bytes ← rules.decode encoded
    then_some (
        leb (length bytes) max_image_bytes
        && bytes_start bytes magic
        && str_eq (hex (rules.digest bytes)) sha256)
    some (image_content media_type width height encoded sha256)

  unfoldable pub text_item : Value → Option Content
  text_item value = do
    words ← str_of value "text"
    then_some (text_admitted words)
    pdf ← bool_of value "pdf"
    some (text_content words pdf)

  unfoldable pub opaque_item : Value → Option Content
  opaque_item value = do
    reason ← str_of value "reason"
    then_some (contains opaque_reasons reason)
    some (opaque_content reason)

  unfoldable pub content : Value → Option Content
  content value = do
    type_name ← str_of value "type"
    if str_eq type_name "text" && has_exactly value text_fields
        then text_item value
        else if str_eq type_name "image" && has_exactly value image_fields
        then image value
        else if str_eq type_name "opaque" && has_exactly value opaque_fields
        then opaque_item value
        else none

  unfoldable pub media_type_admitted : String → Bool
  media_type_admitted media_type =
      leb (count media_type) max_media_type_chars && rules.media_type media_type

  unfoldable pub attachment : Value → Option Attachment
  attachment item = do
    then_some (has_exactly item item_fields)
    id ← str_of item "id"
    then_some (rules.file_id id)
    name ← str_of item "name"
    then_some (name_admitted name)
    media_type ← str_of item "media_type"
    then_some (media_type_admitted media_type)
    size ← size_of item
    sha256 ← str_of item "sha256"
    then_some (rules.sha256 sha256)
    inner ← get item "content"
    content ← content inner
    some (record {
      id = id;
      name = name;
      media_type = media_type;
      size = size;
      sha256 = sha256;
      content = content;
    })

  unfoldable pub within_message : Value → List Attachment → Bool
  within_message raw items =
      let texts = filter_map (λ (item : Attachment). text_of item.content) items in
      leb (length (filter (λ (item : Attachment). is_image item.content) items)) max_images
      && leb (total count texts) max_total_chars
      && leb (total len texts) max_total_bytes
      && leb (len (rules.canonical raw)) max_field_bytes

  unfoldable pub admitted : Value → Option (List Attachment)
  admitted raw = do
    items ← as_array raw
    then_some (leb (length items) max_attachments)
    prepared ← collect attachment items
    then_some
        (distinct (map (λ (item : Attachment). item.id) prepared) && within_message raw prepared)
    some prepared

  unfoldable pub admit : Value → Result (List Attachment) BrainError
  admit raw = elim (admitted raw) [
    | none ↦ err (contract "invalid attachments")
    | some prepared ↦ ok prepared
  ]
