-- ===== src/Media/Kept.antt =====
-- What the store of uploads (media.py) never drops, and when it takes an upload.
use local_canvas.Prelude.{
  ℕ, ◌+◌, ◌-◌, ◌≤◌, ◌<◌, ◌⊎◌, String, ◌≡◌, ◌≢◌, refl, sym, ap, ◌∙◌, Bool, true, false, none, some,
  List, [], ◌∷◌, arith, filter, ltb, leb, eqb, if◌then◌else◌, All, Bool-cases, inl, inr, eq_iff,
}
use local_canvas.Prelude.Dict.{Dict, lookup, values, lookup-remove}
use local_canvas.Media.Store.{
  MediaItem, MediaStore, is_settled, discard, discard_all, is_expired, reap, sort_by_age,
  insert_by_age, evict, evict_over_capacity, total_bytes, receive,
}

abbrev pub sum : List ℕ → ℕ
sum [] = 0
sum (n ∷ ns) = n + sum ns

-- The body is written whole exactly if all its chunks together are within the limit, and then the
-- bytes counted are the bytes of the chunks.
pub receive-sum :
    (limit : ℕ) (chunks : List ℕ) (written : ℕ)
    → written ≤ limit
    → receive limit chunks written
      ≡ (if leb (written + sum chunks) limit then some (written + sum chunks) else none)
unfolding receive
receive-sum limit [] written h = ground arith
receive-sum limit (chunk ∷ chunks) written h = elim (Bool-cases (eqb chunk 0)) [
  | inl z ↦ ground (arith, receive-sum limit chunks written h)
  | inr z ↦ elim (Bool-cases (ltb limit (written + chunk))) [
    | inl over ↦ ground arith
    | inr fits ↦ ground (arith, receive-sum limit chunks (written + chunk) (ground arith))
  ]
]

-- Each item stands under its own id.
abbrev pub Named : MediaStore → Type 0
Named s = All (λ (v : MediaItem). lookup v.media_id s.items ≡ some v) (values s.items)

abbrev Others : String → List MediaItem → Type 0
Others k = All (λ (v : MediaItem). v.media_id ≢ k)

lookup-discard :
    (item : MediaItem) (s : MediaStore) (k : String)
    → item.media_id ≢ k
    → lookup k (discard item s).items ≡ lookup k s.items
unfolding discard
lookup-discard item s k h =
    ground (arith, lookup-remove item.media_id k s.items, eq_iff item.media_id k)

lookup-discard_all :
    (dropped : List MediaItem) (s : MediaStore) (k : String)
    → Others k dropped
    → lookup k (discard_all dropped s).items ≡ lookup k s.items
unfolding discard_all
lookup-discard_all [] s k h = refl
lookup-discard_all (item ∷ dropped) s k (h, hs) =
    lookup-discard_all dropped (discard item s) k hs ∙ lookup-discard item s k h

filter-true :
    (p : MediaItem → Bool) (v : MediaItem) (vs : List MediaItem)
    → p v ≡ true
    → filter p (v ∷ vs) ≡ v ∷ filter p vs
filter-true p v vs e = rw (e, filter)

filter-false :
    (p : MediaItem → Bool) (v : MediaItem) (vs : List MediaItem)
    → p v ≡ false
    → filter p (v ∷ vs) ≡ filter p vs
filter-false p v vs e = rw (e, filter)

clash :
    (p : MediaItem → Bool) (items : Dict MediaItem) (k : String) (item v : MediaItem)
    → lookup k items ≡ some item
    → p item ≡ false
    → lookup v.media_id items ≡ some v
    → p v ≡ true
    → v.media_id ≢ k
clash p items k item v at fails e x same =
    let is : some item ≡ some v = sym at ∙ ap (λ j. lookup j items) (sym same) ∙ e in
    let is' : item ≡ v = cc is in cc (fails, x, ap p is')

-- The items that a test picks are others than one that fails the test.
picked-Others :
    (p : MediaItem → Bool) (items : Dict MediaItem) (vs : List MediaItem) (k : String)
    (item : MediaItem)
    → lookup k items ≡ some item
    → p item ≡ false
    → All (λ (v : MediaItem). lookup v.media_id items ≡ some v) vs
    → Others k (filter p vs)
picked-Others p items [] k item at fails all = tt
picked-Others p items (v ∷ vs) k item at fails (e, all) = elim (Bool-cases (p v)) [
  | inr x ↦ rw (filter-false p v vs x) (picked-Others p items vs k item at fails all)
  | inl x ↦
      rw (filter-true p v vs x)
        (clash p items k item v at fails e x, picked-Others p items vs k item at fails all)
]

not_expired :
    (now : ℕ) (item : MediaItem)
    → (item.bytes ≡ 0) ⊎ (now < item.expires_at)
    → is_expired now item ≡ false
unfolding is_expired is_settled
not_expired now item (inl writing) = ground arith
not_expired now item (inr fresh) = ground arith

-- When each item stands under its own id: reaping keeps every item whose expiry is still to come, and
-- one of no bytes, whose file is still being written, however long ago its expiry was.
pub reap-keeps :
    (now : ℕ) (s : MediaStore) (k : String) (item : MediaItem)
    → Named s
    → lookup k s.items ≡ some item
    → (item.bytes ≡ 0) ⊎ (now < item.expires_at)
    → lookup k (reap now s).items ≡ some item
unfolding reap
reap-keeps now s k item named at fresh =
    lookup-discard_all (filter (is_expired now) (values s.items)) s k (
      picked-Others (is_expired now) s.items (values s.items) k item at (not_expired now item fresh)
        named)
    ∙ at

insert_by_age-Others :
    (k : String) (item : MediaItem) (items : List MediaItem)
    → item.media_id ≢ k
    → Others k items
    → Others k (insert_by_age item items)
unfolding insert_by_age
insert_by_age-Others k item [] h hs = (h, hs)
insert_by_age-Others k item (v ∷ items) h (hv, hs) =
    elim (Bool-cases (leb item.created_at v.created_at)) [
      | inl e ↦ simp e (h, (hv, hs))
      | inr e ↦ simp e (hv, insert_by_age-Others k item items h hs)
    ]

sort_by_age-Others :
    (k : String) (items : List MediaItem) → Others k items → Others k (sort_by_age items)
unfolding sort_by_age
sort_by_age-Others k [] hs = hs
sort_by_age-Others k (item ∷ items) (h, hs) =
    insert_by_age-Others k item (sort_by_age items) h (sort_by_age-Others k items hs)

lookup-evict :
    (items : List MediaItem) (n : ℕ) (s : MediaStore) (k : String)
    → Others k items
    → lookup k (evict items n s).items ≡ lookup k s.items
unfolding evict
lookup-evict [] n s k hs = refl
lookup-evict (item ∷ items) n s k (h, hs) = elim (Bool-cases (leb n s.max_store_bytes)) [
  | inl e ↦ simp e refl
  | inr e ↦
      simp e (lookup-evict items (n - item.bytes) (discard item s) k hs ∙ lookup-discard item s k h)
]

-- Eviction keeps every item whose file is still being written, however full the store is.
pub evict-keeps :
    (s : MediaStore) (k : String) (item : MediaItem)
    → Named s
    → lookup k s.items ≡ some item
    → is_settled item ≡ false
    → lookup k (evict_over_capacity s).items ≡ some item
unfolding evict_over_capacity
evict-keeps s k item named at writing = elim (Bool-cases (leb (total_bytes s) s.max_store_bytes)) [
  | inl e ↦ simp e at
  | inr e ↦ simp e (
      lookup-evict (sort_by_age (filter is_settled (values s.items))) (total_bytes s) s k (
        sort_by_age-Others k (filter is_settled (values s.items))
          (picked-Others is_settled s.items (values s.items) k item at writing named))
      ∙ at)
]
