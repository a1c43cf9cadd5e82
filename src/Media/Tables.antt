-- ===== src/Media/Tables.antt =====
-- The tables of gateway/localcanvas_gateway/media.py agree: what is read off the first bytes of an
-- upload is a type that is allowed for its kind, or one that is refused by name.
use mathlib.Core.Path.{subst}
use local_canvas.Prelude.{
  ℕ, ◌+◌, String, ◌≡◌, refl, sym, Bool, true, false, Option, none, some, List, length, ltb, arith,
  if◌then◌else◌, Option-cases, Bool-cases, inl, inr, zero, suc,
}
use local_canvas.Prelude.Dict.{Dict, lookup}
use local_canvas.Media.Sniff.{
  same_bytes, slice, ebml_size, Search, found, missing, unfinished, ebml_search, ebml_id,
  doctype_id, ebml_outcome, ebml_video_type, doctype, as_search, isobmff_image_type,
  isobmff_video_type, sniff_image_type, sniff_video_type, smaller, sniff_bytes,
}
use local_canvas.Media.Decide.{
  Kind, image, video, allowed_types, Decision, decided, unsupported_image_heic,
  unsupported_media_type, is_named, decide, sniff, decided_content_type,
}

-- What is decided of an upload with what was read off its bytes: a type of the table with the extension
-- there, a refusal by name of a type that is named as one of a HEIC photo, or a refusal where nothing was read.
pub data Verdict (kind : Kind) : Option String → Decision → Type 0 where
  taken :
      (t extension : String)
      → lookup t (allowed_types kind) ≡ some extension
      → Verdict kind (some t) (decided t extension)
  refused_by_name :
      (t : String)
      → lookup t (allowed_types kind) ≡ none
      → is_named t ≡ true
      → Verdict kind (some t) unsupported_image_heic
  unknown : Verdict kind none unsupported_media_type

pub record Known (kind : Kind) (o : Option String) : Type 0 where
  pub verdict : Verdict kind o (decide (allowed_types kind) o)

of_none : (kind : Kind) → Known kind none
unfolding decide
of_none kind = record { verdict = unknown }

decide-entry :
    (allowed : Dict String) (t extension : String)
    → lookup t allowed ≡ some extension
    → decide allowed (some t) ≡ decided t extension
unfolding decide
decide-entry allowed t extension e = ground arith

decide-name :
    (allowed : Dict String) (t : String)
    → lookup t allowed ≡ none
    → is_named t ≡ true
    → decide allowed (some t) ≡ unsupported_image_heic
unfolding decide
decide-name allowed t e n = ground arith

of_entry :
    (kind : Kind) (t extension : String)
    → lookup t (allowed_types kind) ≡ some extension
    → Known kind (some t)
of_entry kind t extension e = record {
  verdict =
      subst (λ d. Verdict kind (some t) d) (sym (decide-entry (allowed_types kind) t extension e))
        (taken t extension e);
}

of_name :
    (kind : Kind) (t : String)
    → lookup t (allowed_types kind) ≡ none
    → is_named t ≡ true
    → Known kind (some t)
of_name kind t e n = record {
  verdict =
      subst (λ d. Verdict kind (some t) d) (sym (decide-name (allowed_types kind) t e n))
        (refused_by_name t e n);
}

if-Known :
    {kind : Kind} (b : Bool) {x y : Option String}
    → Known kind x
    → Known kind y
    → Known kind (if b then x else y)
if-Known true k l = k
if-Known false k l = l

isobmff_image_type-Known : (head : List ℕ) → Known image (isobmff_image_type head)
unfolding isobmff_image_type allowed_types lookup is_named
isobmff_image_type-Known head =
    if-Known _ (of_name image "image/heic" refl refl)
      (if-Known _ (of_name image "image/heif" refl refl) (of_none image))

sniff_image_type-Known : (head : List ℕ) → Known image (sniff_image_type head)
unfolding sniff_image_type allowed_types lookup
sniff_image_type-Known head = if-Known _ (of_entry image "image/jpeg" ".jpg" refl) (
    if-Known _ (of_entry image "image/png" ".png" refl) (
      if-Known _ (of_entry image "image/gif" ".gif" refl) (
        if-Known _ (of_entry image "image/webp" ".webp" refl) (
          if-Known _ (of_entry image "image/bmp" ".bmp" refl)
            (if-Known _ (isobmff_image_type-Known head) (of_none image))))))

doctype-Known : (bytes : List ℕ) → Known video (doctype bytes)
unfolding doctype allowed_types lookup
doctype-Known bytes =
    if-Known _ (of_entry video "video/webm" ".webm" refl)
      (if-Known _ (of_entry video "video/x-matroska" ".mkv" refl) (of_none video))

as_search-found : (o : Option String) (t : String) → as_search o ≡ found t → o ≡ some t
unfolding as_search
as_search-found none t h = absurd (ground arith)
as_search-found (some u) t h = ground arith

ebml_search-doctype :
    (fuel : ℕ) (window : List ℕ) (stop offset : ℕ) (t : String)
    → ebml_search fuel window stop offset ≡ found t
    → (bytes : List ℕ) × (doctype bytes ≡ some t)
unfolding ebml_search
ebml_search-doctype zero window stop offset t h = absurd (ground arith)
ebml_search-doctype (suc fuel) window stop offset t h = elim (Bool-cases (ltb offset stop)) [
  | inr e ↦ absurd (ground arith)
  | inl e ↦ elim (Option-cases (ebml_id window offset)) [
    | inl none_here ↦ absurd (ground arith)
    | inr ((id, after_id), f) ↦ elim (Option-cases (ebml_size window after_id)) [
      | inl none_there ↦ absurd (ground arith)
      | inr ((n, start), g) ↦ elim (Bool-cases (same_bytes id doctype_id)) [
        | inl here ↦ elim (Bool-cases (ltb (length window) (start + n))) [
          | inl beyond ↦ absurd (ground arith)
          | inr within ↦ (
            slice start (start + n) window,
            as_search-found (doctype (slice start (start + n) window)) t (ground arith),
          )
        ]
        | inr other ↦ ebml_search-doctype fuel window stop (start + n) t (ground arith)
      ]
    ]
  ]
]

ebml_outcome-Known :
    (head : List ℕ) (t : String) → ebml_outcome head ≡ found t → Known video (some t)
unfolding ebml_outcome
ebml_outcome-Known head t h = elim (Option-cases (ebml_size (slice 0 sniff_bytes head) 4)) [
  | inl e ↦ absurd (ground arith)
  | inr ((size, offset), e) ↦
      let (bytes, found_there) : (bytes : List ℕ) × (doctype bytes ≡ some t) =
        ebml_search-doctype sniff_bytes (slice 0 sniff_bytes head)
          (smaller (offset + size) (length (slice 0 sniff_bytes head))) offset t
          (rw (ebml_outcome, e) at h) in
      subst (Known video) found_there (doctype-Known bytes)
]

elim-Known :
    (head : List ℕ) (s : Search)
    → ebml_outcome head ≡ s
    → Known video (elim s [ found t ↦ some t | missing ↦ none | unfinished ↦ none ])
elim-Known head (found t) e = ebml_outcome-Known head t e
elim-Known head missing e = of_none video
elim-Known head unfinished e = of_none video

ebml_video_type-Known : (head : List ℕ) → Known video (ebml_video_type head)
unfolding ebml_video_type
ebml_video_type-Known head = elim-Known head (ebml_outcome head) refl

isobmff_video_type-Known : (head : List ℕ) → Known video (isobmff_video_type head)
unfolding isobmff_video_type allowed_types lookup
isobmff_video_type-Known head = if-Known _ (of_entry video "video/mp4" ".mp4" refl) (
    if-Known _ (of_entry video "video/quicktime" ".mov" refl)
      (if-Known _ (of_entry video "video/3gpp" ".3gp" refl) (of_none video)))

sniff_video_type-Known : (head : List ℕ) → Known video (sniff_video_type head)
unfolding sniff_video_type allowed_types lookup
sniff_video_type-Known head = if-Known _ (of_entry video "video/x-msvideo" ".avi" refl) (
    if-Known _ (ebml_video_type-Known head) (
      if-Known _ (isobmff_video_type-Known head)
        (if-Known _ (of_entry video "video/mpeg" ".mpeg" refl) (of_none video))))

sniff-Known : (kind : Kind) (head : List ℕ) → Known kind (sniff kind head)
unfolding sniff
sniff-Known image head = sniff_image_type-Known head
sniff-Known video head = sniff_video_type-Known head

-- Of the first bytes of an upload, of either kind: where a type is read off them that is in the table of
-- its kind, the upload is taken with that type and the extension that stands there; where another is
-- read, it is one of the two types of HEIC photos, and the upload is refused as such; and only where none
-- is read, the upload is refused as an unsupported type.
pub decided_content_type-Verdict :
    (kind : Kind) (head : List ℕ) → Verdict kind (sniff kind head) (decided_content_type kind head)
unfolding decided_content_type
decided_content_type-Verdict kind head = (sniff-Known kind head).verdict
