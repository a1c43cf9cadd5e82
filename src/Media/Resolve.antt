-- ===== src/Media/Resolve.antt =====
-- `ComfyInputResolver` of gateway/localcanvas_gateway/media.py: the value that a media field is bound
-- to. The upload to ComfyUI is a parameter, with a state.
use Prim.Native.Char.{Char, code}
use local_canvas.Prelude.{
  ℕ, zero, suc, String, Bool, true, false, Option, none, some, ◌==◌, ◌&&◌, ◌||◌, leb, eqb,
  if◌then◌else◌,
}
use local_canvas.Prelude.Dict.{insert}
use local_canvas.Values.{Value, str, obj, get_value, non_empty_text}
use local_canvas.Workflow.{InputField, type_value}
use local_canvas.Binding.Bind.{Outcome, done, raised}
use local_canvas.Media.Store.{MediaItem, MediaStore, get_media}

-- The `code` of a `ValidationFailure` of the field, or the `ComfyError` of the upload.
pub data ResolveError : Type 0 where
  invalid_input media_not_found media_expired media_kind_mismatch : String → ResolveError
  comfy_error : ResolveError

-- `_media_id`
unfoldable pub media_id_of : Value → Option String
media_id_of (obj fields) = non_empty_text (get_value "media_id" fields)
media_id_of v = none

-- `MEDIA_ID`, `^m-[0-9a-f]{6}$`: the `$` also stands before a newline at the end.
is_hex : Char → Bool
is_hex ch = let c = code ch in (leb 48 c && leb c 57) || (leb 97 c && leb c 102)

is_hex_run : ℕ → String → Bool
unfolding is_hex
is_hex_run zero String.[] = true
is_hex_run zero (String.◌∷◌ c String.[]) = eqb (code c) 10
is_hex_run zero s = false
is_hex_run (suc n) String.[] = false
is_hex_run (suc n) (String.◌∷◌ c s) = is_hex c && is_hex_run n s

unfoldable pub is_media_id : String → Bool
unfolding is_hex_run
is_media_id (String.◌∷◌ a (String.◌∷◌ b s)) = eqb (code a) 109 && eqb (code b) 45 && is_hex_run 6 s
is_media_id s = false

-- `upload_input`, which answers the reference of the stored file, or raises.
abbrev pub Upload : Type 0 → Type 0
Upload W = MediaItem → W → Option String × W

-- `item.resolved_value = reference`, on the item that the store holds.
unfoldable pub remember : MediaItem → String → MediaStore → MediaStore
remember item reference s = record s {
  items = insert item.media_id (record item { resolved_value = some reference }) s.items;
}

module _ {W : Type 0} (upload : Upload W) where
  unfoldable pub on_uploaded :
      MediaItem → MediaStore → Option String × W → Outcome ResolveError Value × MediaStore × W
  unfolding remember
  on_uploaded item s (none, w) = (raised comfy_error, s, w)
  on_uploaded item s (some reference, w) = (done (str reference), remember item reference s, w)

  -- What follows where the item is known and of the field's kind.
  unfoldable pub reference_of :
      MediaItem → MediaStore → W → Outcome ResolveError Value × MediaStore × W
  unfolding on_uploaded
  reference_of item s w = elim item.resolved_value [
    | some reference ↦ (done (str reference), s, w)
    | none ↦ on_uploaded item s (upload item w)
  ]

  unfoldable pub on_item :
      InputField → Option MediaItem → MediaStore → W → Outcome ResolveError Value × MediaStore × W
  unfolding reference_of
  on_item f none s w = (raised (media_expired f.id), s, w)
  on_item f (some item) s w =
      if item.kind == type_value f.field_type
      then reference_of item s w
      else (raised (media_kind_mismatch f.id), s, w)

  -- `resolve`
  unfoldable pub resolve :
      ℕ → InputField → Value → MediaStore → W → Outcome ResolveError Value × MediaStore × W
  unfolding on_item
  resolve now f v s w = elim (media_id_of v) [
    | none ↦ (raised (invalid_input f.id), s, w)
    | some media_id ↦
        if is_media_id media_id
        then on_item f (get_media media_id now s).0 (get_media media_id now s).1 w
        else (raised (media_not_found f.id), s, w)
  ]
