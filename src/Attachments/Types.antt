-- ===== src/Attachments/Types.antt =====
-- The attachments of runtime/src/attachments.rs and their wire form, with Team's bounds
-- (protocol/team/http/src/payload/mod.rs and turn.rs).
use shimpz_brain.Base.{ℕ, ◌*◌, ◌+◌, ◌/◌, String, Bool, true, false, not, List, [], ◌∷◌, map, any}
use shimpz_brain.Json.Types.{Value, bool}
use shimpz_brain.Json.{object, array, text, uint}
use shimpz_brain.Text.{hex}

pub data Content : Type 0 where
  text_content : (words : String) (pdf : Bool) → Content
  image_content : (media_type : String) (width height : ℕ) (base64 sha256 : String) → Content
  opaque_content : (reason : String) → Content

pub record Attachment : Type 0 where
  pub id : String
  pub name : String
  pub media_type : String
  pub size : ℕ  -- u64
  pub sha256 : String
  pub content : Content

abbrev pub max_attachments : ℕ
max_attachments = 8

abbrev pub max_file_bytes : ℕ
max_file_bytes = 25 * 1024 * 1024

abbrev pub max_filename_bytes : ℕ
max_filename_bytes = 255

abbrev pub max_media_type_chars : ℕ
max_media_type_chars = 127

abbrev pub max_images : ℕ
max_images = 4

abbrev pub max_text_chars : ℕ
max_text_chars = 32768

abbrev pub max_text_bytes : ℕ
max_text_bytes = 128 * 1024

abbrev pub max_total_chars : ℕ
max_total_chars = 131072

abbrev pub max_total_bytes : ℕ
max_total_bytes = 512 * 1024

abbrev pub image_edge : ℕ
image_edge = 1568

abbrev pub image_pixels : ℕ
image_pixels = 1200000

abbrev pub max_image_bytes : ℕ
max_image_bytes = 512 * 1024

-- `4 * MAX_ATTACHMENT_IMAGE_BYTES.div_ceil(3)`.
abbrev pub encoded_bound : ℕ
encoded_bound = 4 * ((max_image_bytes + 2) / 3)

abbrev pub max_field_bytes : ℕ
max_field_bytes = 1536 * 1024

abbrev pub opaque_reasons : List String
opaque_reasons =
    "animated" ∷ "encrypted" ∷ "no_text" ∷ "too_large" ∷ "unreadable" ∷ "unsupported" ∷ []

unfoldable pub content_value : Content → Value
content_value (text_content words pdf) =
    object (("type", text "text") ∷ ("text", text words) ∷ ("pdf", bool pdf) ∷ [])
content_value (image_content media_type width height base64 sha256) = object (
    ("type", text "image")
    ∷ ("media_type", text media_type)
    ∷ ("width", uint width)
    ∷ ("height", uint height)
    ∷ ("base64", text base64)
    ∷ ("sha256", text sha256)
    ∷ [])
content_value (opaque_content reason) =
    object (("type", text "opaque") ∷ ("reason", text reason) ∷ [])

-- One item of `wire`.
unfoldable pub item_value : Attachment → Value
item_value item = object (
    ("id", text item.id)
    ∷ ("name", text item.name)
    ∷ ("media_type", text item.media_type)
    ∷ ("size", uint item.size)
    ∷ ("sha256", text item.sha256)
    ∷ ("content", content_value item.content)
    ∷ [])

unfoldable pub wire : List Attachment → Value
wire attachments = array (map item_value attachments)

unfoldable pub kind : Content → String
kind (text_content words pdf) = "text"
kind (image_content media_type width height base64 sha256) = "image"
kind (opaque_content reason) = "opaque"

unfoldable pub kinds : List Attachment → List String
kinds attachments = map (λ item. kind item.content) attachments

-- `matches!(content, Content::Opaque { .. })`, and the same for an image.
unfoldable pub is_opaque : Content → Bool
is_opaque (opaque_content reason) = true
is_opaque _ = false

unfoldable pub is_image : Content → Bool
is_image (image_content media_type width height base64 sha256) = true
is_image _ = false

unfoldable pub reads_content : List Attachment → Bool
reads_content attachments = any (λ item. not (is_opaque item.content)) attachments

-- `commitment`: the digest of the canonical wire form.
unfoldable pub commitment : (Value → String) → (String → List ℕ) → List Attachment → String
commitment canonical sha256 attachments = hex (sha256 (canonical (wire attachments)))
