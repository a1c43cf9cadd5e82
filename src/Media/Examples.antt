-- ===== src/Media/Examples.antt =====
-- A store (media.py) with an old upload, a fresh one and one whose file is still being written.
use local_canvas.Values.{non_empty_text, get_value, Value, str, obj, end, field}
use local_canvas.Workflow.{InputField, FieldType, Section, type_value}
use local_canvas.Binding.Bind.{done}
use local_canvas.Prelude.{
  String, true, false, some, eq_iff, ℕ, List, ◌≢◌, ◌+◌, ◌≡◌, refl, none, some, [], ◌∷◌, arith, leb,
  inl, if◌then◌else◌,
}
use local_canvas.Prelude.Dict.{lookup, insert, values}
use local_canvas.Media.Store.{
  get_media, MediaItem, MediaStore, is_settled, reap, evict_over_capacity, receive,
}
use local_canvas.Media.Sniff.{ascii, ebml_outcome, found, unfinished, sniff_image_type}
use local_canvas.Media.Decide.{Kind, decided, decided_content_type, sniff}
use local_canvas.Media.Bytes.{ebml_outcome-ends}
use local_canvas.Media.Tables.{Verdict, decided_content_type-Verdict}
use local_canvas.Media.Resolve.{Upload, resolve, media_id_of, is_media_id}
use local_canvas.Media.Once.{OwnIds, resolve-once}
use local_canvas.Media.Kept.{sum, receive-sum, Named, reap-keeps, evict-keeps}

abbrev old_item : MediaItem
old_item = record {
  media_id = "m-1";
  kind = "image";
  filename = "a.png";
  content_type = "image/png";
  bytes = 900;
  path = "m-1.png";
  created_at = 0;
  expires_at = 10;
  resolved_value = none;
}

abbrev fresh_item : MediaItem
fresh_item = record old_item { media_id = "m-2"; path = "m-2.png"; created_at = 5; expires_at = 15 }

abbrev open_item : MediaItem
open_item = record fresh_item { media_id = "m-3"; path = "m-3.png"; bytes = 0; expires_at = 9 }

abbrev uploads : MediaStore
uploads = record {
  items = ("m-1", old_item) ∷ ("m-2", fresh_item) ∷ ("m-3", open_item) ∷ [];
  files = "m-1.png" ∷ "m-2.png" ∷ "m-3.png" ∷ [];
  ttl = 10;
  max_store_bytes = 1000;
}

uploads-Named : Named uploads
unfolding values lookup
uploads-Named = (refl, (refl, (refl, tt)))

receive-sum_example : receive 1000 (600 ∷ 0 ∷ 500 ∷ []) 0 ≡ (
    if leb (0 + sum (600 ∷ 0 ∷ 500 ∷ [])) 1000 then some (0 + sum (600 ∷ 0 ∷ 500 ∷ [])) else none)
receive-sum_example = receive-sum 1000 (600 ∷ 0 ∷ 500 ∷ []) 0 (omega arith)

-- The file of this item is still being written, long after its expiry.
reap-keeps_example : lookup "m-3" (reap 99 uploads).items ≡ some open_item
reap-keeps_example =
    reap-keeps 99 uploads "m-3" open_item uploads-Named (unfold lookup in refl) (inl refl)

evict-keeps_example : lookup "m-3" (evict_over_capacity uploads).items ≡ some open_item
evict-keeps_example =
    evict-keeps uploads "m-3" open_item uploads-Named (unfold lookup in refl)
      (unfold is_settled in refl)

-- The first bytes of a GIF.
abbrev gif : List ℕ
gif = 71 ∷ 73 ∷ 70 ∷ 56 ∷ 57 ∷ 97 ∷ 1 ∷ 0 ∷ []

gif_is_decided : decided_content_type Kind.image gif ≡ decided "image/gif" ".gif"
unfolding decided_content_type sniff_image_type lookup
gif_is_decided = refl

decided_content_type-Verdict_example :
    Verdict Kind.image (sniff Kind.image gif) (decided_content_type Kind.image gif)
decided_content_type-Verdict_example = decided_content_type-Verdict Kind.image gif

-- The header of a WebM file: one element before the document type.
abbrev webm : List ℕ
webm = 26 ∷ 69 ∷ 223 ∷ 163 ∷ 139 ∷ 66 ∷ 134 ∷ 129 ∷ 1 ∷ 66 ∷ 130 ∷ 132 ∷ 119 ∷ 101 ∷ 98 ∷ 109 ∷ []

webm_is_found : ebml_outcome webm ≡ found "video/webm"
unfolding ebml_outcome ascii
webm_is_found = refl

ebml_outcome-ends_example : ebml_outcome webm ≢ unfinished
ebml_outcome-ends_example = ebml_outcome-ends webm

-- A photo field, and a store with a photo for it.
abbrev photo : InputField
photo = record {
  id = "photo";
  label = "Photo";
  field_type = FieldType.image;
  required = true;
  section = Section.main;
  default = none;
  help = none;
  step = none;
  role = none;
  pair = none;
  duration = none;
  min = none;
  max = none;
  options = [];
  translatable = false;
}

abbrev sent_item : MediaItem
sent_item = record old_item { media_id = "m-3f9c1a" }

abbrev sent : MediaStore
sent = record {
  items = ("m-3f9c1a", sent_item) ∷ [];
  files = "m-1.png" ∷ [];
  ttl = 10;
  max_store_bytes = 1000;
}

abbrev handed : MediaStore
handed = record sent {
  items = ("m-3f9c1a", record sent_item { resolved_value = some "localcanvas/a.png" }) ∷ [];
}

-- The state counts the transfers.
abbrev upload : Upload ℕ
upload item transfers = (some "localcanvas/a.png", transfers + 1)

abbrev reference : Value
reference = obj (field "media_id" (str "m-3f9c1a") end)

sent-OwnIds : OwnIds sent
unfolding lookup
sent-OwnIds id item h = ground (arith, eq_iff "m-3f9c1a" id)

is_handed : resolve upload 1 photo reference sent 0 ≡ (done (str "localcanvas/a.png"), handed, 1)
unfolding resolve media_id_of non_empty_text get_value is_media_id get_media lookup values
    type_value insert
is_handed = refl

still_there :
    (id : String)
    → media_id_of reference ≡ some id
    → lookup id (reap 2 handed).items ≡ lookup id handed.items
unfolding reap values
still_there id h = refl

resolve-once_example :
    resolve upload 2 photo reference handed 1 ≡ (done (str "localcanvas/a.png"), reap 2 handed, 1)
resolve-once_example =
    resolve-once upload 1 2 photo reference sent handed 0 1 (str "localcanvas/a.png") sent-OwnIds
      is_handed still_there
