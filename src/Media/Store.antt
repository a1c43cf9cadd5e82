-- ===== src/Media/Store.antt =====
-- `MediaStore` of gateway/localcanvas_gateway/media.py. The clock is an argument, in whole units; a
-- chunk is its number of bytes. The store directory is the list of the names of its files, and a
-- deletion succeeds. What is decided from the name and the bytes of a file is an argument.
use local_canvas.Prelude.{
  ℕ, zero, suc, ◌+◌, ◌-◌, String, ◌<>◌, Bool, not, Option, none, some, List, [], ◌∷◌, any, filter,
  ltb, leb, eqb, ◌==◌, ◌&&◌, ◌||◌, if◌then◌else◌,
}
use local_canvas.Prelude.Dict.{Dict, lookup, insert, remove, has_key, values}

pub record MediaItem : Type 0 where
  pub media_id : String
  pub kind : String
  pub filename : String
  pub content_type : String
  pub bytes : ℕ
  pub path : String
  pub created_at : ℕ
  pub expires_at : ℕ
  pub resolved_value : Option String

-- `is_settled`
unfoldable pub is_settled : MediaItem → Bool
is_settled item = ltb 0 item.bytes

pub record MediaStore : Type 0 where
  pub items : Dict MediaItem
  pub files : List String
  pub ttl : ℕ
  pub max_store_bytes : ℕ

-- `path.exists()`
unfoldable pub is_file : MediaStore → String → Bool
is_file s path = any (λ p. p == path) s.files

unfoldable pub unlink : String → MediaStore → MediaStore
unlink path s = record s { files = filter (λ p. not (p == path)) s.files }

-- `_discard`
unfoldable pub discard : MediaItem → MediaStore → MediaStore
unfolding unlink
discard item s = unlink item.path (record s { items = remove item.media_id s.items })

unfoldable pub discard_all : List MediaItem → MediaStore → MediaStore
unfolding discard
discard_all [] s = s
discard_all (item ∷ dropped) s = discard_all dropped (discard item s)

-- `reap`
unfoldable pub is_expired : ℕ → MediaItem → Bool
unfolding is_settled
is_expired now item = is_settled item && leb item.expires_at now

unfoldable pub reap : ℕ → MediaStore → MediaStore
unfolding is_expired discard_all
reap now s = discard_all (filter (is_expired now) (values s.items)) s

-- `get`
unfoldable pub get_media : String → ℕ → MediaStore → Option MediaItem × MediaStore
unfolding reap
get_media media_id now s = let s' = reap now s in (lookup media_id s'.items, s')

unfoldable pub total : List MediaItem → ℕ
total [] = 0
total (item ∷ items) = item.bytes + total items

-- `total_bytes`
unfoldable pub total_bytes : MediaStore → ℕ
unfolding total
total_bytes s = total (values s.items)

-- `sorted(..., key=created_at)`, which is stable.
unfoldable pub insert_by_age : MediaItem → List MediaItem → List MediaItem
insert_by_age item [] = item ∷ []
insert_by_age item (other ∷ items) =
    if leb item.created_at other.created_at
    then item ∷ other ∷ items
    else other ∷ insert_by_age item items

unfoldable pub sort_by_age : List MediaItem → List MediaItem
unfolding insert_by_age
sort_by_age [] = []
sort_by_age (item ∷ items) = insert_by_age item (sort_by_age items)

-- The loop of `_evict_over_capacity`, over the settled items from the oldest, with the total.
unfoldable pub evict : List MediaItem → ℕ → MediaStore → MediaStore
unfolding discard
evict [] n s = s
evict (item ∷ items) n s =
    let rest = evict items (n - item.bytes) (discard item s) in
    if leb n s.max_store_bytes then s else rest

-- `_evict_over_capacity`
unfoldable pub evict_over_capacity : MediaStore → MediaStore
unfolding evict total_bytes is_settled sort_by_age
evict_over_capacity s =
    if leb (total_bytes s) s.max_store_bytes
    then s
    else evict (sort_by_age (filter is_settled (values s.items))) (total_bytes s) s

-- `_reserve`, with the ids that `secrets` draws: at most 64.
unfoldable pub reserve : ℕ → List String → String → ℕ → MediaStore → Option (MediaItem × MediaStore)
unfolding is_file
reserve zero draws extension now s = none
reserve (suc tries) [] extension now s = none
reserve (suc tries) (media_id ∷ draws) extension now s =
    let again = reserve tries draws extension now s in
    let item : MediaItem = record {
      media_id = media_id;
      kind = "";
      filename = "";
      content_type = "";
      bytes = 0;
      path = media_id <> extension;
      created_at = now;
      expires_at = now + s.ttl;
      resolved_value = none;
    } in
    if has_key media_id s.items || is_file s (media_id <> extension)
    then again
    else some (item, record s { items = insert media_id item s.items })

-- The loop over the chunks: the bytes written, or `none` where they pass the limit.
unfoldable pub receive : ℕ → List ℕ → ℕ → Option ℕ
receive limit [] written = some written
receive limit (chunk ∷ chunks) written =
    let rest = receive limit chunks (written + chunk) in
    if eqb chunk 0
    then receive limit chunks written
    else if ltb limit (written + chunk)
    then none
    else rest

-- The file is opened for writing, which makes it.
unfoldable pub opened : MediaItem → MediaStore → MediaStore
opened item s = record s { files = item.path ∷ s.files }

-- What becomes of a reservation whose upload failed.
unfoldable pub abandon : MediaItem → MediaStore → MediaStore
unfolding unlink
abandon item s = let s' = unlink item.path s in record s' { items = remove item.media_id s'.items }

-- What becomes of one whose upload was written.
unfoldable pub settle : MediaItem → MediaStore → MediaStore
unfolding evict_over_capacity
settle item s = evict_over_capacity (record s { items = insert item.media_id item s.items })

pub data Refusal : Type 0 where
  invalid_kind bad_filename empty_upload unsupported_type store_unavailable file_too_large : Refusal

pub data Stored : Type 0 where
  stored : MediaItem → Stored
  rejected : Refusal → Stored

-- `checked_kind`
unfoldable pub is_kind : String → Bool
is_kind kind = kind == "image" || kind == "video"

-- The peeked head is empty exactly if every chunk is.
unfoldable pub all_empty : List ℕ → Bool
all_empty chunks = not (any (λ chunk. not (eqb chunk 0)) chunks)

-- The end of `store`, with the bytes that were written.
unfoldable pub on_received :
    String → String → String → ℕ → MediaItem → Option ℕ → MediaStore → Stored × MediaStore
unfolding abandon settle
on_received kind filename content_type later item none s = (rejected file_too_large, abandon item s)
on_received kind filename content_type later item (some written) s =
    let item' : MediaItem = record item {
      kind = kind;
      filename = filename;
      content_type = content_type;
      bytes = written;
      created_at = later;
      expires_at = later + s.ttl;
    } in
    (stored item', settle item' s)

-- `store`. The filename is what `checked_filename` answers, and the pair what
-- `decided_content_type` reads out of the head; `none` where they raise. `now` is the clock before
-- the bytes are read, and `later` after.
unfoldable pub store :
    String
    → Option String
    → Option (String × String)
    → List String
    → ℕ
    → ℕ
    → ℕ
    → List ℕ
    → MediaStore
    → Stored × MediaStore
unfolding is_kind all_empty reserve receive on_received opened reap
store kind none decided draws now later limit chunks s =
    (rejected (if is_kind kind then bad_filename else invalid_kind), s)
store kind (some filename) none draws now later limit chunks s = (
  rejected (
      if is_kind kind
      then (if all_empty chunks then empty_upload else unsupported_type)
      else invalid_kind),
  s,
)
store kind (some filename) (some (content_type, extension)) draws now later limit chunks s =
    if is_kind kind
    then (if all_empty chunks
        then (rejected empty_upload, s)
        else (elim (reserve 64 draws extension now (reap now s)) [
          | none ↦ (rejected store_unavailable, reap now s)
          | some (item, s') ↦
              on_received kind filename content_type later item (receive limit chunks 0)
                (opened item s')
        ]))
    else (rejected invalid_kind, s)
