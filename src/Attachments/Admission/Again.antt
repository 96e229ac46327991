-- ===== src/Attachments/Admission/Again.antt =====
-- The attachments that a start admitted are admitted from their own wire form:
-- runtime/src/attachments.rs, `admit` after `wire`.
use shimpz_brain.Base.{
  ℕ, ◌≤◌, String, true, some, List, [], ◌∷◌, ◌≡◌, ok, map, All, collect, length-map, arith, refl,
}
use shimpz_brain.Json.Types.{Value, values-of_values, get}
use shimpz_brain.Json.{object, array, text, uint, str_of, u64_of, bool_of, as_array, has_exactly}
use shimpz_brain.Python.{Python}
use shimpz_brain.Turn.Context.RoundTrip.{uint_back}
use shimpz_brain.Attachments.Types.{
  Content, text_content, image_content, opaque_content, Attachment, content_value, item_value, wire,
  image_edge, max_file_bytes,
}
use shimpz_brain.Attachments.Admission.{
  Rules, edge, size_of, image, text_item, opaque_item, content, attachment, within_message,
  admitted, distinct, admit,
}
use shimpz_brain.Attachments.Admission.Bounds.{
  IsContent, IsImage, IsPrepared, IsAdmitted, admit-IsAdmitted, admitted_parts,
}

edge_back :
    (v : Value) (key : String) (n : ℕ)
    → u64_of v key ≡ some n
    → (1 ≤ n) × (n ≤ image_edge)
    → edge v key ≡ some n
unfolding edge
edge_back v key n h b = ground arith

size_back :
    (a : Attachment)
    → (1 ≤ a.size) × (a.size ≤ max_file_bytes)
    → size_of (item_value a) ≡ some a.size
unfolding size_of item_value object text get uint
size_back a h = ground arith

module _ (py : Python) (rules : Rules) where
  image_back :
      (media_type : String) (width height : ℕ) (base64 sha256 : String)
      → IsImage py rules media_type width height base64 sha256
      → let c = image_content media_type width height base64 sha256 in
        image py rules (content_value c) ≡ some c
  unfolding image content_value object text str_of get u64_of
  image_back media_type width height base64 sha256 h =
      let c = content_value (image_content media_type width height base64 sha256) in
      let wide : edge c "width" ≡ some width =
        edge_back c "width" width (uint_back width (omega (arith, h.wide))) h.wide in
      let high : edge c "height" ≡ some height =
        edge_back c "height" height (uint_back height (omega (arith, h.high))) h.high in
      rw (h.known, wide, high, h.decoded)
        (ground (arith, h.pixels, h.encoded, h.small, h.starts, h.digest))

  content_back : (c : Content) → IsContent py rules c → content py rules (content_value c) ≡ some c
  unfolding content content_value text_item opaque_item object text str_of bool_of has_exactly get
  content_back (text_content words pdf) h = ground arith
  content_back (image_content media_type width height base64 sha256) h =
      image_back media_type width height base64 sha256 h
  content_back (opaque_content reason) h = ground arith

  attachment_back :
      (a : Attachment) → IsPrepared py rules a → attachment py rules (item_value a) ≡ some a
  unfolding attachment item_value object text str_of get has_exactly
  attachment_back a h =
      rw (size_back a h.size_ok, content_back a.content h.content_ok)
        (ground (arith, h.id_ok, h.name_ok, h.media_type_ok, h.sha256_ok))

  attachments_back :
      (items : List Attachment)
      → All (IsPrepared py rules) items
      → collect (attachment py rules) (map item_value items) ≡ some items
  attachments_back [] h = refl
  attachments_back (a ∷ items) (first, rest) =
      rw (attachment_back a first, attachments_back items rest)

  within_same :
      (raw : Value) (items : List Attachment)
      → rules.canonical (wire items) ≡ rules.canonical raw
      → within_message py rules (wire items) items ≡ within_message py rules raw items
  unfolding within_message
  within_same raw items same = rw same

  admitted_back :
      (items : List Attachment)
      → IsAdmitted py rules items
      → distinct (map (λ (item : Attachment). item.id) items) ≡ true
      → within_message py rules (wire items) items ≡ true
      → admitted py rules (wire items) ≡ some items
  unfolding admitted wire array as_array
  admitted_back items bounds ids within =
      rw
        (
          values-of_values (map item_value items),
          length-map item_value items,
          attachments_back items bounds.prepared,
        )
        (ground (arith, bounds.few, ids, within))

  -- What was admitted is admitted again from the wire form that its commitment digests, where that
  -- form has the canonical encoding of the field it came from: the form adds and loses nothing.
  pub admit-wire :
      (raw : Value) (items : List Attachment)
      → admit py rules raw ≡ ok items
      → rules.canonical (wire items) ≡ rules.canonical raw
      → admit py rules (wire items) ≡ ok items
  unfolding admit
  admit-wire raw items h same =
      let (collected, few, ids, within) = admitted_parts py rules raw items h in
      let again : admitted py rules (wire items) ≡ some items =
        admitted_back items (admit-IsAdmitted py rules raw items h).0 ids
          (rw (within_same raw items same) within) in
      rw (again, admit)
