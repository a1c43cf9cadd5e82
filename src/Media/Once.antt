-- ===== src/Media/Once.antt =====
-- The memo of the resolver (media.py): a file is handed to ComfyUI once.
use local_canvas.Prelude.{
  ℕ, String, ◌≡◌, refl, sym, ◌∙◌, ap, true, ◌==◌, Option, none, some, List, [], ◌∷◌, arith, filter,
  Option-cases, Bool-cases, inl, inr,
}
use local_canvas.Prelude.Dict.{values, lookup, lookup-insert_self, lookup-remove}
use local_canvas.Values.{Value, str}
use local_canvas.Workflow.{InputField, type_value}
use local_canvas.Binding.Bind.{Outcome, done, raised}
use local_canvas.Media.Store.{
  MediaItem, MediaStore, discard, discard_all, unlink, is_expired, reap, get_media,
}
use local_canvas.Media.Resolve.{
  ResolveError, media_id_of, is_media_id, Upload, remember, on_uploaded, reference_of, on_item,
  resolve,
}

-- Each item stands under its own id.
abbrev pub OwnIds : MediaStore → Type 0
OwnIds s = (id : String) (item : MediaItem) → lookup id s.items ≡ some item → item.media_id ≡ id

discard-lookup :
    (d : MediaItem) (s : MediaStore) (id : String) (item : MediaItem)
    → lookup id (discard d s).items ≡ some item
    → lookup id s.items ≡ some item
unfolding discard unlink
discard-lookup d s id item h = elim (Bool-cases (d.media_id == id)) [
  | inl same ↦ absurd (ground (arith, lookup-remove d.media_id id s.items))
  | inr other ↦ ground (arith, lookup-remove d.media_id id s.items)
]

discard_all-lookup :
    (ds : List MediaItem) (s : MediaStore) (id : String) (item : MediaItem)
    → lookup id (discard_all ds s).items ≡ some item
    → lookup id s.items ≡ some item
unfolding discard_all
discard_all-lookup [] s id item h = h
discard_all-lookup (d ∷ ds) s id item h =
    discard-lookup d s id item (discard_all-lookup ds (discard d s) id item h)

-- Reaping brings no item in.
reap-lookup :
    (now : ℕ) (s : MediaStore) (id : String) (item : MediaItem)
    → lookup id (reap now s).items ≡ some item
    → lookup id s.items ≡ some item
unfolding reap
reap-lookup now s id item h =
    discard_all-lookup (filter (is_expired now) (values s.items)) s id item h

raised_not_done :
    {e : ResolveError} {x : Value} → ◌≡◌ {A = Outcome ResolveError Value} (raised e) (done x) → ⊥
raised_not_done h = absurd (ground arith)

done-inj : {x y : Value} → ◌≡◌ {A = Outcome ResolveError Value} (done x) (done y) → x ≡ y
done-inj h = cc

module _ {W : Type 0} (upload : Upload W) where
  -- An item whose value is known is not handed over.
  remembered :
      (now : ℕ) (f : InputField) (v : Value) (s : MediaStore) (w : W) (id : String)
      (item : MediaItem) (reference : String)
      → media_id_of v ≡ some id
      → is_media_id id ≡ true
      → lookup id (reap now s).items ≡ some item
      → (item.kind == type_value f.field_type) ≡ true
      → item.resolved_value ≡ some reference
      → resolve upload now f v s w ≡ (done (str reference), reap now s, w)
  unfolding resolve get_media on_item reference_of
  remembered now f v s w id item reference e good there kind known =
      rw (resolve, e, good, there, on_item, kind, reference_of, known) refl

  -- What a resolve that succeeds has found, and what the store holds afterwards.
  abbrev Done : ℕ → InputField → Value → MediaStore → Value → MediaStore → Type 0
  Done now f v s x s' =
      (id : String) × (item : MediaItem) × (reference : String) × (media_id_of v ≡ some id)
      × (is_media_id id ≡ true)
      × (lookup id s'.items ≡ some item)
      × ((item.kind == type_value f.field_type) ≡ true)
      × (item.resolved_value ≡ some reference)
      × (x ≡ str reference)

  -- What is bound is the item's value from then on.
  abbrev Memo : MediaItem → Value → MediaStore → Type 0
  Memo item x s' =
      (kept : MediaItem) × (reference : String) × (lookup item.media_id s'.items ≡ some kept)
      × (kept.kind ≡ item.kind)
      × (kept.resolved_value ≡ some reference)
      × (x ≡ str reference)

  on_uploaded-Memo :
      (item : MediaItem) (t s' : MediaStore) (answer : Option String × W) (w' : W) (x : Value)
      → on_uploaded upload item t answer ≡ (done x, s', w')
      → Memo item x s'
  unfolding on_uploaded remember
  on_uploaded-Memo item t s' (none, w) w' x h = absurd (raised_not_done (ap (λ q. q.0) h))
  on_uploaded-Memo item t s' (some reference, w) w' x h =
      let same : s' ≡ remember item reference t = sym (ap (λ q. q.1) h) in
      (
        record item { resolved_value = some reference },
        reference,
        rw same (
            lookup-insert_self item.media_id (record item { resolved_value = some reference })
              t.items),
        refl,
        refl,
        sym (done-inj (ap (λ q. q.0) h)),
      )

  reference_of-Memo :
      (item : MediaItem) (t s' : MediaStore) (w w' : W) (x : Value)
      → lookup item.media_id t.items ≡ some item
      → reference_of upload item t w ≡ (done x, s', w')
      → Memo item x s'
  unfolding reference_of
  reference_of-Memo item t s' w w' x there h = elim (Option-cases item.resolved_value) [
    | inl e ↦ on_uploaded-Memo item t s' (upload item w) w' x (rw (reference_of, e) at h)
    | inr (reference, e) ↦
        let now : (done (str reference), t, w) ≡ (done x, s', w') = rw (reference_of, e) at h in
        (
          item,
          reference,
          rw (sym (ap (λ q. q.1) now)) there,
          refl,
          e,
          sym (done-inj (ap (λ q. q.0) now)),
        )
  ]

  resolve-done :
      (now : ℕ) (f : InputField) (v : Value) (s s' : MediaStore) (w w' : W) (x : Value)
      → OwnIds s
      → resolve upload now f v s w ≡ (done x, s', w')
      → Done now f v s x s'
  unfolding resolve get_media
  resolve-done now f v s s' w w' x own h = elim (Option-cases (media_id_of v)) [
    | inl e ↦ absurd (ground arith)
    | inr (id, e) ↦ elim (Bool-cases (is_media_id id)) [
      | inr bad ↦ absurd (ground arith)
      | inl good ↦ elim (Option-cases (lookup id (reap now s).items)) [
        | inl away ↦ absurd (unfold on_item in ground arith)
        | inr (item, there) ↦ elim (Bool-cases (item.kind == type_value f.field_type)) [
          | inr other ↦ absurd (unfold on_item in ground arith)
          | inl kind ↦
              let mine : item.media_id ≡ id = own id item (reap-lookup now s id item there) in
              let (kept, reference, at, same_kind, known, bound) =
                reference_of-Memo item (reap now s) s' w w' x
                  (ap (λ k. lookup k (reap now s).items) mine ∙ there)
                  (rw (resolve, e, good, there, on_item, kind) at h) in
              (
                id,
                kept,
                reference,
                e,
                good,
                sym (ap (λ k. lookup k s'.items) mine) ∙ at,
                ap (λ k. k == type_value f.field_type) same_kind ∙ kind,
                known,
                bound,
              )
        ]
      ]
    ]
  ]

  -- Where each item of the store stands under its own id: when a media value has been resolved, and a
  -- later resolve of it finds its item as the first one left it, the second gives the same value and
  -- hands nothing to ComfyUI.
  pub resolve-once :
      (now later : ℕ) (f : InputField) (v : Value) (s s' : MediaStore) (w w' : W) (x : Value)
      → OwnIds s
      → resolve upload now f v s w ≡ (done x, s', w')
      → ((id : String)
          → media_id_of v ≡ some id
          → lookup id (reap later s').items ≡ lookup id s'.items)
      → resolve upload later f v s' w' ≡ (done x, reap later s', w')
  resolve-once now later f v s s' w w' x own h still =
      let (id, item, reference, e, good, there, kind, known, bound) =
        resolve-done now f v s s' w w' x own h in
      rw bound (remembered later f v s' w' id item reference e good (still id e ∙ there) kind known)
