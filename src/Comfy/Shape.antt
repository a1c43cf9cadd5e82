-- ===== src/Comfy/Shape.antt =====
-- What a history entry (comfy/client.py) and a notice (comfy/events.py) can be, whatever ComfyUI sent.
use local_canvas.Prelude.{
  String, ◌≡◌, ◌≢◌, refl, true, false, ◌&&◌, Option, none, some, List, [], ◌∷◌, ◌++◌, arith, All,
  Bool-cases, Option-cases, inl, inr, ◌⊎◌, ◌==◌, eq_iff,
}
use local_canvas.Values.{
  Value, null, bool, int, float, str, arr, obj, Fields, end, field, get_value,
}
use local_canvas.Comfy.{OutputFile, HistoryEntry}
use local_canvas.Comfy.Reading.{
  file_named, output_file, output_files, files_under, output_kinds, node_files, outputs_of, outputs,
  entry_of, history_entry, iterated, is_str, has_message,
}

-- A file that can be fetched: it has a name, and it is an image or a video.
abbrev pub IsOutput : OutputFile → Type 0
IsOutput o = (o.filename ≢ "") × ((o.kind ≡ "image") ⊎ (o.kind ≡ "video"))

-- At most one of finished, failed and interrupted, and an error only with a failure.
abbrev pub IsConclusion : HistoryEntry → Type 0
IsConclusion e =
    (e.found ≡ true)
    × (e.finished && e.failed ≡ false)
    × (e.finished && e.interrupted ≡ false)
    × (e.failed && e.interrupted ≡ false)
    × ((e.failed ≡ true) ⊎ (e.error ≡ none))

outputs-append :
    (xs ys : List OutputFile) → All IsOutput xs → All IsOutput ys → All IsOutput (xs ++ ys)
outputs-append [] ys h k = k
outputs-append (x ∷ xs) ys (p, h) k = (p, outputs-append xs ys h k)

abbrev IsKind : String → Type 0
IsKind kind = (kind ≡ "image") ⊎ (kind ≡ "video")

module _ (str_of : Value → String) where
  file_named-IsOutput :
      (kind : String) (item : Fields) (v : Value)
      → IsKind kind
      → All IsOutput (file_named str_of kind item v)
  unfolding file_named
  file_named-IsOutput kind item null k = tt
  file_named-IsOutput kind item (bool b) k = tt
  file_named-IsOutput kind item (int n) k = tt
  file_named-IsOutput kind item (float x) k = tt
  file_named-IsOutput kind item (arr vs) k = tt
  file_named-IsOutput kind item (obj fs) k = tt
  file_named-IsOutput kind item (str s) k = elim (Bool-cases (s == "")) [
    | inl e ↦ simp e tt
    | inr e ↦ simp e ((ground (arith, eq_iff s ""), k), tt)
  ]

  output_files-IsOutput :
      (kind : String) (vs : List Value) → IsKind kind → All IsOutput (output_files str_of kind vs)
  unfolding output_files output_file
  output_files-IsOutput kind [] k = tt
  output_files-IsOutput kind (obj item ∷ vs) k =
      outputs-append (file_named str_of kind item (get_value "filename" item))
        (output_files str_of kind vs) (file_named-IsOutput kind item (get_value "filename" item) k)
        (output_files-IsOutput kind vs k)
  output_files-IsOutput kind (null ∷ vs) k = output_files-IsOutput kind vs k
  output_files-IsOutput kind (bool b ∷ vs) k = output_files-IsOutput kind vs k
  output_files-IsOutput kind (int n ∷ vs) k = output_files-IsOutput kind vs k
  output_files-IsOutput kind (float x ∷ vs) k = output_files-IsOutput kind vs k
  output_files-IsOutput kind (str s ∷ vs) k = output_files-IsOutput kind vs k
  output_files-IsOutput kind (arr xs ∷ vs) k = output_files-IsOutput kind vs k

  -- The files of an answer, if it is no TypeError.
  abbrev AreOutputs : Option (List OutputFile) → Type 0
  AreOutputs none = Unit
  AreOutputs (some files) = All IsOutput files

  files_under-AreOutputs :
      (keys : List (String × String)) (fs : Fields)
      → All (λ (k : String × String). IsKind k.1) keys
      → AreOutputs (files_under str_of keys fs)
  unfolding files_under
  files_under-AreOutputs [] fs h = tt
  files_under-AreOutputs ((key, kind) ∷ keys) fs (k, h) =
      elim (Option-cases (iterated (get_value key fs))) [
        | inl e ↦ rw (e, files_under) tt
        | inr (vs, e) ↦ elim (Option-cases (files_under str_of keys fs)) [
          | inl r ↦ rw (e, files_under, r) tt
          | inr (files, r) ↦
              rw (e, files_under, r)
                (outputs-append (output_files str_of kind vs) files
                  (output_files-IsOutput kind vs k) (rw r at (files_under-AreOutputs keys fs h)))
        ]
      ]

  node_files-AreOutputs : (v : Value) → AreOutputs (node_files str_of v)
  unfolding node_files
  node_files-AreOutputs null = tt
  node_files-AreOutputs (bool b) = tt
  node_files-AreOutputs (int n) = tt
  node_files-AreOutputs (float x) = tt
  node_files-AreOutputs (str s) = tt
  node_files-AreOutputs (arr vs) = tt
  node_files-AreOutputs (obj fs) =
      files_under-AreOutputs (output_kinds) fs (inl refl, (inr refl, (inr refl, tt)))

  outputs_of-AreOutputs : (fs : Fields) → AreOutputs (outputs_of str_of fs)
  unfolding outputs_of
  outputs_of-AreOutputs end = tt
  outputs_of-AreOutputs (field k v fs) = elim (Option-cases (node_files str_of v)) [
    | inl e ↦ rw (e, outputs_of) tt
    | inr (files, e) ↦ elim (Option-cases (outputs_of str_of fs)) [
      | inl r ↦ rw (e, outputs_of, r) tt
      | inr (rest, r) ↦
          rw (e, outputs_of, r)
            (outputs-append files rest (rw e at (node_files-AreOutputs v))
              (rw r at (outputs_of-AreOutputs fs)))
    ]
  ]

  outputs-AreOutputs : (v : Value) → AreOutputs (outputs str_of v)
  unfolding outputs
  outputs-AreOutputs null = tt
  outputs-AreOutputs (bool b) = tt
  outputs-AreOutputs (int n) = tt
  outputs-AreOutputs (float x) = tt
  outputs-AreOutputs (str s) = tt
  outputs-AreOutputs (arr vs) = tt
  outputs-AreOutputs (obj fs) = outputs_of-AreOutputs fs

  entry_of-IsConclusion :
      (v : Value) (entry : Fields) (files : List OutputFile) → IsConclusion (entry_of v entry files)
  unfolding entry_of
  entry_of-IsConclusion null entry files = (refl, ground arith, ground arith, refl, inr refl)
  entry_of-IsConclusion (bool b) entry files = (refl, ground arith, ground arith, refl, inr refl)
  entry_of-IsConclusion (int n) entry files = (refl, ground arith, ground arith, refl, inr refl)
  entry_of-IsConclusion (float x) entry files = (refl, ground arith, ground arith, refl, inr refl)
  entry_of-IsConclusion (str s) entry files = (refl, ground arith, ground arith, refl, inr refl)
  entry_of-IsConclusion (arr vs) entry files = (refl, ground arith, ground arith, refl, inr refl)
  entry_of-IsConclusion (obj status) entry files =
      elim (Bool-cases (is_str "error" (get_value "status_str" status))) [
        | inr e ↦ simp e (refl, ground arith, ground arith, refl, inr refl)
        | inl e ↦
            elim (Bool-cases (has_message (get_value "messages" status) "execution_interrupted")) [
              | inl i ↦ simp (e, i) (refl, refl, refl, refl, inr refl)
              | inr i ↦ simp (e, i) (refl, refl, refl, refl, inl refl)
            ]
      ]

  outputs-entry_of :
      (v : Value) (entry : Fields) (files : List OutputFile)
      → (entry_of v entry files).outputs ≡ files
  unfolding entry_of
  outputs-entry_of null entry files = refl
  outputs-entry_of (bool b) entry files = refl
  outputs-entry_of (int n) entry files = refl
  outputs-entry_of (float x) entry files = refl
  outputs-entry_of (str s) entry files = refl
  outputs-entry_of (arr vs) entry files = refl
  outputs-entry_of (obj status) entry files = refl

  abbrev IsEntry : Option HistoryEntry → Type 0
  IsEntry none = Unit
  IsEntry (some e) = IsConclusion e × All IsOutput e.outputs

  history_entry-IsEntry : (entry : Fields) → IsEntry (history_entry str_of entry)
  unfolding history_entry
  history_entry-IsEntry entry = elim (Option-cases (outputs str_of (get_value "outputs" entry))) [
    | inl x ↦ rw (x, history_entry) tt
    | inr (files, x) ↦
        rw (x, history_entry)
          (
            entry_of-IsConclusion (get_value "status" entry) entry files,
            rw (← outputs-entry_of (get_value "status" entry) entry files) at
                (rw x at (outputs-AreOutputs (get_value "outputs" entry))),
          )
  ]

  -- However ComfyUI shaped a history entry, what is read from it is at most one of finished, failed
  -- and interrupted, names an error only for a failure, and lists only files that have a name and
  -- are images or videos.
  pub history_entry-IsConclusion :
      (entry : Fields) (e : HistoryEntry)
      → history_entry str_of entry ≡ some e
      → IsConclusion e × All IsOutput e.outputs
  history_entry-IsConclusion entry e h = rw h at (history_entry-IsEntry entry)
