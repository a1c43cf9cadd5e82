-- ===== src/Comfy/Notices.antt =====
-- What a frame of ComfyUI's socket (comfy/events.py) can make the gateway remember and call.
use local_canvas.Prelude.{
  ◌≡◌, ℕ, ◌≤◌, ◌<◌, String, ◌≢◌, ◌&&◌, Option, none, some, arith, Bool-cases, Option-cases, inl,
  inr, any, ◌==◌, eq_iff, ltb→lt, leb→le, ltb, leb,
}
use local_canvas.Prelude.Int.{ℤ, pos, negsuc}
use local_canvas.Values.{
  Value, null, bool, int, float, str, arr, obj, Fields, get_value, non_empty_text,
}
use local_canvas.Comfy.Events.{
  Frame, binary, text, Handled, Notice, note_change, note_progress, lifecycle, count, position,
  or_else, progress_notice, is_none, executing_notice, is_executing, lifecycle_notice, data_of,
  on_message, handle,
}

-- A prompt id that names a prompt.
abbrev pub Named : Option String → Type 0
Named none = Unit
Named (some p) = p ≢ ""

-- A call names a prompt, and a progress is a position within a total that is not zero.
abbrev pub IsNotice : Option Notice → Type 0
IsNotice none = Unit
IsNotice (some (note_change p)) = p ≢ ""
IsNotice (some (note_progress p step total)) = (p ≢ "") × ((0 < total) × (step ≤ total))

abbrev IsHandled : Handled → Type 0
IsHandled (executing, notice) = Named executing × IsNotice notice

-- A position is one of a positive total.
abbrev IsPosition : Option (ℕ × ℕ) → Type 0
IsPosition none = Unit
IsPosition (some (step, total)) = (0 < total) × (step ≤ total)

position-IsPosition : (a b : Option ℤ) → IsPosition (position a b)
unfolding position
position-IsPosition none b = tt
position-IsPosition (some (negsuc n)) b = tt
position-IsPosition (some (pos n)) none = tt
position-IsPosition (some (pos n)) (some (negsuc m)) = tt
position-IsPosition (some (pos n)) (some (pos m)) = elim (Bool-cases (ltb 0 m && leb n m)) [
  | inl e ↦ simp e (ltb→lt 0 m (ground arith), leb→le n m (ground arith))
  | inr e ↦ simp e tt
]

non_empty_text-Named : (v : Value) → Named (non_empty_text v)
unfolding non_empty_text
non_empty_text-Named null = tt
non_empty_text-Named (bool b) = tt
non_empty_text-Named (int n) = tt
non_empty_text-Named (float x) = tt
non_empty_text-Named (arr vs) = tt
non_empty_text-Named (obj fs) = tt
non_empty_text-Named (str s) = elim (Bool-cases (s == "")) [
  | inl e ↦ simp e tt
  | inr e ↦ simp e (ground (arith, eq_iff s ""))
]

or_else-Named : (a b : Option String) → Named a → Named b → Named (or_else a b)
or_else-Named none b h k = k
or_else-Named (some p) b h k = h

progress-IsNotice :
    (fields : Fields) (executing : Option String)
    → Named executing
    → IsNotice (progress_notice fields executing)
unfolding progress_notice
progress-IsNotice fields executing h =
    elim (Option-cases (or_else (non_empty_text (get_value "prompt_id" fields)) executing)) [
      | inl e ↦ rw (e, progress_notice) tt
      | inr (p, e) ↦
          elim (Option-cases
            (position (count (get_value "value" fields)) (count (get_value "max" fields)))) [
              | inl x ↦ rw (e, x, progress_notice) tt
              | inr ((step, total), x) ↦
                  rw (e, x, progress_notice)
                    (
                      rw e at (
                          or_else-Named (non_empty_text (get_value "prompt_id" fields)) executing
                            (non_empty_text-Named (get_value "prompt_id" fields)) h),
                      rw x at (
                          position-IsPosition (count (get_value "value" fields))
                            (count (get_value "max" fields))),
                    )
            ]
    ]

executing-IsHandled :
    (fields : Fields) (p executing : Option String)
    → Named p
    → Named executing
    → IsHandled (executing_notice fields p executing)
unfolding executing_notice
executing-IsHandled fields none executing k h = (h, tt)
executing-IsHandled fields (some p) executing k h =
    elim (Bool-cases (is_none (get_value "node" fields))) [
      | inl e ↦ simp e (k, k)
      | inr e ↦ simp e (k, tt)
    ]

lifecycle-IsHandled :
    (kind : String) (p executing : Option String)
    → Named p
    → Named executing
    → IsHandled (lifecycle_notice kind p executing)
unfolding lifecycle_notice
lifecycle-IsHandled kind none executing k h = (h, tt)
lifecycle-IsHandled kind (some p) executing k h = elim (Bool-cases (kind == "execution_start")) [
  | inl e ↦ simp e (k, k)
  | inr e ↦ elim (Bool-cases (is_executing executing p)) [
    | inl x ↦ simp (e, x) (tt, k)
    | inr x ↦ simp (e, x) (h, k)
  ]
]

-- What a frame leads to, if it is no TypeError.
abbrev IsAnswer : Option Handled → Type 0
IsAnswer none = Unit
IsAnswer (some h) = IsHandled h

message-IsHandled :
    (kind : String) (fields : Fields) (executing : Option String)
    → Named executing
    → IsAnswer (on_message (str kind) fields executing)
unfolding on_message
message-IsHandled kind fields executing h =
    let named = non_empty_text-Named (get_value "prompt_id" fields) in
    elim (Bool-cases (kind == "progress")) [
      | inl e ↦ simp e (h, progress-IsNotice fields executing h)
      | inr e ↦ elim (Bool-cases (kind == "executing")) [
        | inl x ↦
            simp (e, x)
              (executing-IsHandled fields (non_empty_text (get_value "prompt_id" fields)) executing
                named h)
        | inr x ↦ elim (Bool-cases (any (λ k. k == kind) lifecycle)) [
          | inl y ↦
              simp (e, x, y)
                (lifecycle-IsHandled kind (non_empty_text (get_value "prompt_id" fields)) executing
                  named h)
          | inr y ↦ simp (e, x, y) (h, tt)
        ]
      ]
    ]

on_message-IsAnswer :
    (kind : Value) (fields : Fields) (executing : Option String)
    → Named executing
    → IsAnswer (on_message kind fields executing)
unfolding on_message
on_message-IsAnswer null fields executing h = (h, tt)
on_message-IsAnswer (bool b) fields executing h = (h, tt)
on_message-IsAnswer (int n) fields executing h = (h, tt)
on_message-IsAnswer (float x) fields executing h = (h, tt)
on_message-IsAnswer (arr vs) fields executing h = tt
on_message-IsAnswer (obj fs) fields executing h = tt
on_message-IsAnswer (str kind) fields executing h = message-IsHandled kind fields executing h

handle-IsAnswer :
    (frame : Frame) (executing : Option String)
    → Named executing
    → IsAnswer (handle frame executing)
unfolding handle
handle-IsAnswer binary executing h = (h, tt)
handle-IsAnswer (text none) executing h = (h, tt)
handle-IsAnswer (text (some null)) executing h = (h, tt)
handle-IsAnswer (text (some (bool b))) executing h = (h, tt)
handle-IsAnswer (text (some (int n))) executing h = (h, tt)
handle-IsAnswer (text (some (float x))) executing h = (h, tt)
handle-IsAnswer (text (some (str s))) executing h = (h, tt)
handle-IsAnswer (text (some (arr vs))) executing h = (h, tt)
handle-IsAnswer (text (some (obj fs))) executing h =
    on_message-IsAnswer (get_value "type" fs) (data_of (get_value "data" fs)) executing h

-- Whatever a frame holds, while the prompt that is remembered as executing has a name, the one that
-- is remembered after it has one, and a call that the frame causes names a prompt; a progress is a
-- step of a positive total, and not past it.
pub handle-IsNotice :
    (frame : Frame) (executing next : Option String) (notice : Option Notice)
    → Named executing
    → handle frame executing ≡ some (next, notice)
    → Named next × IsNotice notice
handle-IsNotice frame executing next notice h e = rw e at (handle-IsAnswer frame executing h)
