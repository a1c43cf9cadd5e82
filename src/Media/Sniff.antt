-- ===== src/Media/Sniff.antt =====
-- The first bytes of an upload, in gateway/localcanvas_gateway/media.py: which type of image or video
-- they are. Bytes are numbers; a text in quotes stands for its ASCII bytes.
use Prim.Native.Char.{code}
use local_canvas.Prelude.{
  ℕ, zero, suc, ◌+◌, ◌-◌, ◌*◌, ◌%◌, ◌^◌, String, Bool, true, false, Option, none, some, List, [],
  ◌∷◌, any, length, get_elem?, ltb, leb, eqb, ◌&&◌, ◌||◌, if◌then◌else◌,
}
use local_canvas.Values.Numbers.{bit_length}

unfoldable pub ascii : String → List ℕ
ascii String.[] = []
ascii (String.◌∷◌ c s) = code c ∷ ascii s

unfoldable pub skip : ℕ → List ℕ → List ℕ
skip zero bytes = bytes
skip (suc n) [] = []
skip (suc n) (b ∷ bytes) = skip n bytes

unfoldable pub first : ℕ → List ℕ → List ℕ
first zero bytes = []
first (suc n) [] = []
first (suc n) (b ∷ bytes) = b ∷ first n bytes

-- `data[start:stop]`
unfoldable pub slice : ℕ → ℕ → List ℕ → List ℕ
unfolding skip first
slice start stop bytes = first (stop - start) (skip start bytes)

-- `a == b`
unfoldable pub same_bytes : List ℕ → List ℕ → Bool
same_bytes [] [] = true
same_bytes (a ∷ more) (b ∷ others) = eqb a b && same_bytes more others
same_bytes bytes others = false

-- The bytes at an offset are the text's.
unfoldable pub stands_at : ℕ → String → List ℕ → Bool
unfolding slice ascii same_bytes
stands_at start s head = same_bytes (slice start (start + length (ascii s)) head) (ascii s)

unfoldable pub is_brand : List String → List ℕ → Bool
unfolding ascii same_bytes
is_brand brands bytes = any (λ b. same_bytes (ascii b) bytes) brands

abbrev heic_brands : List String
heic_brands = "heic" ∷ "heix" ∷ "heim" ∷ "heis" ∷ "hevc" ∷ "hevx" ∷ "hevm" ∷ "hevs" ∷ []

abbrev heif_brands : List String
heif_brands = "mif1" ∷ "mif2" ∷ "msf1" ∷ []

-- `_isobmff_image_type`, with `_ISOBMFF_IMAGE_BRANDS`
unfoldable pub isobmff_image_type : List ℕ → Option String
unfolding is_brand slice
isobmff_image_type head =
    if is_brand heic_brands (slice 8 12 head)
    then some "image/heic"
    else if is_brand heif_brands (slice 8 12 head)
    then some "image/heif"
    else none

-- `int.from_bytes(bytes, "little")`
unfoldable pub little_endian : List ℕ → ℕ
little_endian [] = 0
little_endian (b ∷ bytes) = b + 256 * little_endian bytes

abbrev dib_header_sizes : List ℕ
dib_header_sizes = 12 ∷ 16 ∷ 40 ∷ 52 ∷ 56 ∷ 64 ∷ 108 ∷ 124 ∷ []

unfoldable pub is_bmp : List ℕ → Bool
unfolding stands_at little_endian
is_bmp head =
    stands_at 0 "BM" head
    && leb 18 (length head)
    && any (λ n. eqb n (little_endian (slice 14 18 head))) dib_header_sizes

abbrev jpeg_mark : List ℕ
jpeg_mark = 255 ∷ 216 ∷ 255 ∷ []

abbrev png_mark : List ℕ
png_mark = 137 ∷ 80 ∷ 78 ∷ 71 ∷ 13 ∷ 10 ∷ 26 ∷ 10 ∷ []

-- `sniff_image_type`
unfoldable pub sniff_image_type : List ℕ → Option String
unfolding stands_at is_bmp isobmff_image_type
sniff_image_type head =
    if same_bytes (slice 0 3 head) jpeg_mark
    then some "image/jpeg"
    else if same_bytes (slice 0 8 head) png_mark
    then some "image/png"
    else if stands_at 0 "GIF87a" head || stands_at 0 "GIF89a" head
    then some "image/gif"
    else if stands_at 0 "RIFF" head && stands_at 8 "WEBP" head
    then some "image/webp"
    else if is_bmp head
    then some "image/bmp"
    else if stands_at 4 "ftyp" head
    then isobmff_image_type head
    else none

-- The first byte of a number, its length in bytes, and where it ends; `none` for one that does not
-- fit.
unfoldable pub number_at : List ℕ → ℕ → Option (ℕ × ℕ × ℕ)
unfolding bit_length
number_at window offset = elim (get_elem? window offset) [
  | none ↦ none
  | some byte ↦
      let n = 9 - bit_length 8 byte in
      if eqb byte 0
      then none
      else if ltb (length window) (offset + n)
      then none
      else some (byte, n, offset + n)
]

big_endian : ℕ → List ℕ → ℕ
big_endian value [] = value
big_endian value (b ∷ bytes) = big_endian (value * 256 + b) bytes

-- `_ebml_number` with `keep_marker=True`: the bytes as they stand.
unfoldable pub ebml_id : List ℕ → ℕ → Option (List ℕ × ℕ)
unfolding number_at
ebml_id window offset = elim (number_at window offset) [
  | none ↦ none
  | some (byte, n, next) ↦ some (slice offset next window, next)
]

-- `_ebml_number` with `keep_marker=False`: the marker is the bit above the 8 - n low ones.
unfoldable pub ebml_size : List ℕ → ℕ → Option (ℕ × ℕ)
unfolding number_at big_endian
ebml_size window offset = elim (number_at window offset) [
  | none ↦ none
  | some (byte, n, next) ↦
      some (big_endian (byte % 2 ^ (8 - n)) (slice (offset + 1) next window), next)
]

-- `_EBML_DOCTYPES`
unfoldable pub doctype : List ℕ → Option String
doctype bytes =
    if same_bytes bytes (ascii "webm")
    then some "video/webm"
    else if same_bytes bytes (ascii "matroska")
    then some "video/x-matroska"
    else none

abbrev pub doctype_id : List ℕ
doctype_id = 66 ∷ 130 ∷ []

-- How the search for the document type ends: with a type, without one, or, where the fuel is spent,
-- not at all.
pub data Search : Type 0 where
  found : String → Search
  missing unfinished : Search

unfoldable pub as_search : Option String → Search
as_search none = missing
as_search (some t) = found t

-- The loop of `_ebml_video_type`.
unfoldable pub ebml_search : ℕ → List ℕ → ℕ → ℕ → Search
unfolding ebml_id ebml_size doctype as_search same_bytes slice
ebml_search zero window stop offset = if ltb offset stop then unfinished else missing
ebml_search (suc fuel) window stop offset =
    if ltb offset stop
    then (elim (ebml_id window offset) [
      | none ↦ missing
      | some (id, after_id) ↦ elim (ebml_size window after_id) [
        | none ↦ missing
        | some (n, start) ↦
            if same_bytes id doctype_id
            then (if ltb (length window) (start + n)
                then missing
                else as_search (doctype (slice start (start + n) window)))
            else ebml_search fuel window stop (start + n)
      ]
    ])
    else missing

unfoldable pub smaller : ℕ → ℕ → ℕ
smaller a b = if ltb a b then a else b

-- `SNIFF_BYTES`
abbrev pub sniff_bytes : ℕ
sniff_bytes = 64

-- The search of `_ebml_video_type`, which has a step for every byte of the window.
unfoldable pub ebml_outcome : List ℕ → Search
unfolding ebml_search smaller
ebml_outcome head =
    let window = slice 0 sniff_bytes head in
    elim (ebml_size window 4) [
      | none ↦ missing
      | some (size, offset) ↦
          ebml_search sniff_bytes window (smaller (offset + size) (length window)) offset
    ]

-- `_ebml_video_type`
unfoldable pub ebml_video_type : List ℕ → Option String
unfolding ebml_outcome
ebml_video_type head = elim (ebml_outcome head) [
  | found t ↦ some t
  | missing ↦ none
  | unfinished ↦ none
]

abbrev mp4_brands : List String
mp4_brands =
    "isom" ∷ "iso2" ∷ "iso3" ∷ "iso4" ∷ "iso5" ∷ "iso6" ∷ "iso7" ∷ "iso8" ∷ "iso9" ∷ "isoa" ∷ "mp41"
    ∷ "mp42" ∷ "mp4v" ∷ "avc1" ∷ "mmp4" ∷ "dash" ∷ "MSNV" ∷ []

abbrev mobile_brands : List String
mobile_brands =
    "3gp1" ∷ "3gp2" ∷ "3gp3" ∷ "3gp4" ∷ "3gp5" ∷ "3gp6" ∷ "3gp7" ∷ "3gp8" ∷ "3gp9" ∷ "3ge6" ∷ "3ge9"
    ∷ "3gg6" ∷ "3gg9" ∷ "3gh9" ∷ "3gm9" ∷ "3gr6" ∷ "3gr9" ∷ "3gs6" ∷ "3gs9" ∷ []

-- `_isobmff_video_type`, with `_ISOBMFF_VIDEO_BRANDS`
unfoldable pub isobmff_video_type : List ℕ → Option String
unfolding is_brand slice
isobmff_video_type head =
    if is_brand mp4_brands (slice 8 12 head)
    then some "video/mp4"
    else if is_brand ("qt  " ∷ []) (slice 8 12 head)
    then some "video/quicktime"
    else if is_brand mobile_brands (slice 8 12 head)
    then some "video/3gpp"
    else none

abbrev ebml_mark : List ℕ
ebml_mark = 26 ∷ 69 ∷ 223 ∷ 163 ∷ []

-- `_MPEG_START_CODES`
unfoldable pub is_mpeg : List ℕ → Bool
unfolding same_bytes slice
is_mpeg head =
    same_bytes (slice 0 4 head) (0 ∷ 0 ∷ 1 ∷ 186 ∷ [])
    || same_bytes (slice 0 4 head) (0 ∷ 0 ∷ 1 ∷ 179 ∷ [])

-- `sniff_video_type`
unfoldable pub sniff_video_type : List ℕ → Option String
unfolding stands_at ebml_video_type isobmff_video_type is_mpeg
sniff_video_type head =
    if stands_at 0 "RIFF" head && stands_at 8 "AVI " head
    then some "video/x-msvideo"
    else if same_bytes (slice 0 4 head) ebml_mark
    then ebml_video_type head
    else if stands_at 4 "ftyp" head
    then isobmff_video_type head
    else if is_mpeg head
    then some "video/mpeg"
    else none
