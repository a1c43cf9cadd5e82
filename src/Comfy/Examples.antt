-- ===== src/Comfy/Examples.antt =====
-- A history entry of a finished prompt and a progress frame, as ComfyUI sends them.
use local_canvas.Prelude.{String, ◌≡◌, refl, true, false, none, some, [], ◌∷◌, All}
use local_canvas.Prelude.Int.{pos}
use local_canvas.Values.{
  Value, bool, int, str, arr, obj, nil, cons, Fields, end, field, get_value, items,
}
use local_canvas.Comfy.{HistoryEntry}
use local_canvas.Comfy.Reading.{history_entry}
use local_canvas.Comfy.Events.{note_progress, Frame, text, handle}
use local_canvas.Comfy.Shape.{IsOutput, IsConclusion, history_entry-IsConclusion}
use local_canvas.Comfy.Notices.{Named, IsNotice, handle-IsNotice}

abbrev image : Fields
image =
    field "filename" (str "a.png") (field "subfolder" (str "") (field "type" (str "output") end))

abbrev entry : Fields
entry =
    field "status" (obj (field "status_str" (str "success") (field "completed" (bool true) end))) (
      field "outputs" (obj (field "9" (obj (field "images" (arr (cons (obj image) nil)) end)) end))
        end)

abbrev finished_entry : HistoryEntry
finished_entry = record {
  found = true;
  finished = true;
  failed = false;
  interrupted = false;
  error = none;
  outputs =
      record { filename = "a.png"; subfolder = ""; folder_type = "output"; kind = "image" } ∷ [];
}

abbrev no_text : Value → String
no_text v = "?"

entry_is_read : history_entry no_text entry ≡ some finished_entry
unfolding history_entry get_value items
entry_is_read = refl

history_entry-IsConclusion_example :
    IsConclusion finished_entry × All IsOutput finished_entry.outputs
history_entry-IsConclusion_example =
    history_entry-IsConclusion no_text entry finished_entry entry_is_read

abbrev progress_frame : Frame
progress_frame = text (
    some (
      obj (
        field "type" (str "progress")
          (field "data" (obj (field "value" (int (pos 3)) (field "max" (int (pos 20)) end))) end))))

frame_is_handled :
    handle progress_frame (some "prompt-1")
    ≡ some (some "prompt-1", some (note_progress "prompt-1" 3 20))
unfolding handle get_value
frame_is_handled = refl

handle-IsNotice_example : Named (some "prompt-1") × IsNotice (some (note_progress "prompt-1" 3 20))
handle-IsNotice_example =
    handle-IsNotice progress_frame (some "prompt-1") (some "prompt-1")
      (some (note_progress "prompt-1" 3 20)) (λ e. cc) frame_is_handled
