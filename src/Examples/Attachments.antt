-- ===== src/Examples/Attachments.antt =====
-- The theorems on attachments, at concrete files.
use Prim.Native.String.{len}
use shimpz_brain.Base.{ℕ, ◌+◌, ◌*◌, ◌≤◌, false, List, [], ◌∷◌, ◌≡◌, refl, All, ok, length}
use shimpz_brain.Json.Types.{Value}
use shimpz_brain.Attachments.Types.{Attachment, text_content, opaque_content, wire, max_field_bytes}
use shimpz_brain.Attachments.Admission.{admit}
use shimpz_brain.Attachments.Admission.Bounds.{IsAdmitted, admit-IsAdmitted}
use shimpz_brain.Attachments.Admission.Again.{admit-wire}
use shimpz_brain.Attachments.Charges.{
  Counted, max_file_tokens, max_call_tokens, max_turn_tokens, charge, charges, admit_call,
}
use shimpz_brain.Attachments.Charges.Ceilings.{sum, charge_within}
use shimpz_brain.Examples.{py}
use shimpz_brain.Examples.Service.{rules}

abbrev note : Attachment
note = record {
  id = "f1";
  name = "note.txt";
  media_type = "text/plain";
  size = 12;
  sha256 = "ab";
  content = text_content "Water plants" false;
}

abbrev blob : Attachment
blob = record {
  id = "f2";
  name = "blob.bin";
  media_type = "application/octet-stream";
  size = 40;
  sha256 = "ac";
  content = opaque_content "unsupported";
}

abbrev sent : Value
sent = wire (note ∷ blob ∷ [])

admits_sent : admit py rules sent ≡ ok (note ∷ blob ∷ [])
unfolding admit shimpz_brain.Attachments.Admission.admitted shimpz_brain.Json.as_array wire
    shimpz_brain.Json.array shimpz_brain.Attachments.Admission.attachment
    shimpz_brain.Json.has_exactly shimpz_brain.Attachments.Types.item_value shimpz_brain.Json.object
    shimpz_brain.Json.str_of shimpz_brain.Json.text shimpz_brain.Attachments.Admission.name_admitted
    shimpz_brain.Attachments.Admission.media_type_admitted
    shimpz_brain.Attachments.Admission.size_of shimpz_brain.Json.uint
    shimpz_brain.Attachments.Admission.content shimpz_brain.Attachments.Types.content_value
    shimpz_brain.Attachments.Admission.bytes_start shimpz_brain.Attachments.Admission.distinct
    shimpz_brain.Attachments.Admission.edge shimpz_brain.Attachments.Admission.image
    shimpz_brain.Attachments.Admission.magic_of shimpz_brain.Attachments.Admission.opaque_item
    shimpz_brain.Attachments.Admission.text_admitted shimpz_brain.Attachments.Admission.text_item
    shimpz_brain.Attachments.Admission.text_of shimpz_brain.Attachments.Admission.within_message
    shimpz_brain.Attachments.Types.is_image shimpz_brain.Json.Types.get shimpz_brain.Json.as_bool
    shimpz_brain.Json.as_str shimpz_brain.Json.as_u64 shimpz_brain.Json.bool_of
    shimpz_brain.Json.decimal shimpz_brain.Json.int shimpz_brain.Json.members
    shimpz_brain.Json.u64_of shimpz_brain.Text.hex
admits_sent = refl

admit-IsAdmitted_example :
    IsAdmitted py rules (note ∷ blob ∷ []) × (len (rules.canonical sent) ≤ max_field_bytes)
admit-IsAdmitted_example = admit-IsAdmitted py rules sent (note ∷ blob ∷ []) admits_sent

admit-wire_example : admit py rules (wire (note ∷ blob ∷ [])) ≡ ok (note ∷ blob ∷ [])
admit-wire_example = admit-wire py rules sent (note ∷ blob ∷ []) admits_sent refl

-- The provider counts the note; the opaque file is estimated.
abbrev counted : List (ℕ × Counted)
counted = (0, Counted.value 30) ∷ []

charges_sent : charge rules false false counted (note ∷ blob ∷ []) ≡ ok 32
unfolding charge charges shimpz_brain.Attachments.Charges.receive
    shimpz_brain.Attachments.Types.is_opaque shimpz_brain.Attachments.Charges.is_stopped
    shimpz_brain.Attachments.Charges.counted_at shimpz_brain.Attachments.Projection.estimated_charge
    shimpz_brain.Attachments.Projection.blocks shimpz_brain.Attachments.Charges.admit_charges
charges_sent = refl

third_call : admit_call 32 2 ≡ ok tt
unfolding admit_call
third_call = refl

charge_within_example :
    (ns : List ℕ) × (charges rules false false counted (note ∷ blob ∷ []) ≡ ok ns)
    × (length ns ≡ 2)
    × All (λ n. n ≤ max_file_tokens) ns
    × (32 ≡ sum ns)
    × (32 ≤ max_call_tokens)
    × (32 * (2 + 1) ≤ max_turn_tokens)
charge_within_example =
    charge_within rules false false counted note (blob ∷ []) 32 2 charges_sent third_call
