-- ===== src/Media/Decide.antt =====
-- `decided_content_type` of gateway/localcanvas_gateway/media.py.
use local_canvas.Prelude.{
  ℕ, String, Bool, true, Option, none, some, List, [], ◌∷◌, ◌==◌, if◌then◌else◌,
}
use local_canvas.Prelude.Dict.{Dict, lookup}
use local_canvas.Media.Sniff.{sniff_image_type, sniff_video_type}

-- The kinds, as `checked_kind` lets them through.
pub data Kind : Type 0 where
  image video : Kind

-- `ALLOWED_TYPES`
unfoldable pub allowed_types : Kind → Dict String
allowed_types image =
    ("image/jpeg", ".jpg")
    ∷ ("image/png", ".png")
    ∷ ("image/webp", ".webp")
    ∷ ("image/gif", ".gif")
    ∷ ("image/bmp", ".bmp")
    ∷ []
allowed_types video =
    ("video/mp4", ".mp4")
    ∷ ("video/quicktime", ".mov")
    ∷ ("video/webm", ".webm")
    ∷ ("video/x-matroska", ".mkv")
    ∷ ("video/3gpp", ".3gp")
    ∷ ("video/mpeg", ".mpeg")
    ∷ ("video/x-msvideo", ".avi")
    ∷ []

-- `_SNIFFERS`
unfoldable pub sniff : Kind → List ℕ → Option String
sniff image head = sniff_image_type head
sniff video head = sniff_video_type head

-- What is decided: a type and its extension, the refusal of a HEIC photo, or that of any other file.
pub data Decision : Type 0 where
  decided : String → String → Decision
  unsupported_image_heic unsupported_media_type : Decision

-- A type of `NAMED_IMAGE_REFUSALS`
unfoldable pub is_named : String → Bool
is_named t = if t == "image/heic" then true else t == "image/heif"

unfoldable pub decide : Dict String → Option String → Decision
unfolding is_named lookup
decide allowed none = unsupported_media_type
decide allowed (some t) = elim (lookup t allowed) [
  | some extension ↦ decided t extension
  | none ↦ if is_named t then unsupported_image_heic else unsupported_media_type
]

-- `decided_content_type`
unfoldable pub decided_content_type : Kind → List ℕ → Decision
unfolding decide sniff allowed_types
decided_content_type kind head = decide (allowed_types kind) (sniff kind head)
