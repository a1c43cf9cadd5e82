-- ===== src/Jobs/Examples.antt =====
-- Runs of the job store (jobs.py) in a small world: ComfyUI's clock, which starts a prompt at 1 and
-- finishes it at 3.
use native.Mathlib.Decide.{ℕ_discrete}
use local_canvas.Prelude.Text.{String_discrete}
use local_canvas.Jobs.Job.{JobView_discrete, Progress_discrete, results_from}
use local_canvas.Jobs.Store.{
  snapshot, get, on_history, create, is_view, name_set, new_id, new_job, publish, write,
}
use local_canvas.Prelude.{
  ℕ, ◌+◌, ◌≡◌, refl, true, false, none, some, List, [], ◌∷◌, ltb, if◌then◌else◌,
}
use local_canvas.Prelude.Dict.{lookup, insert, has_key}
use local_canvas.Comfy.{QueuePlace, OutputFile, HistoryEntry, answered, ComfyApi, media_type}
use local_canvas.Comfy.Reading.{no_entry}
use local_canvas.Jobs.Job.{Job, JobState, completed, running, cancelled, job_results, to_view}
use local_canvas.Jobs.Store.{
  JobStore, Wording, empty, refresh, cancel_job, cancel_read, commit, on_place, apply_history,
  version,
}
use local_canvas.Jobs.Invariant.{IsWell}
use local_canvas.Jobs.Finality.{SameAt, Moved}
use local_canvas.Jobs.Calls.{
  Call, creates_job, snapshots, cancels, reports, calls, call, calls-IsWell, calls_terminal,
  calls_version,
}
use local_canvas.Jobs.Evidence.{Concluded, refresh-Concluded}
use local_canvas.Jobs.Cancel.{logged, Guarded, cancel_job-Guarded}
use local_canvas.Jobs.Races.{late_place_reopens, cancel_concludes}

abbrev words : Wording
words = record { guess_type = λ name. none; scrub = λ error types. error.message }

abbrev picture : OutputFile
picture = record { filename = "a.png"; subfolder = ""; folder_type = "output"; kind = "image" }

abbrev finished_entry : HistoryEntry
finished_entry = record {
  found = true;
  finished = true;
  failed = false;
  interrupted = false;
  error = none;
  outputs = picture ∷ [];
}

abbrev api : ComfyApi ℕ
api = record {
  history = λ p now. (answered (if ltb now 3 then no_entry else finished_entry), now + 1);
  queue_place =
      λ p now. (answered (if ltb now 1 then QueuePlace.pending else QueuePlace.running), now);
  delete_queued = λ p now. (answered tt, now);
  interrupt = λ now. (answered tt, now);
}

abbrev script : List Call
script =
    creates_job ("job-1" ∷ []) "now" "flow" "prompt-1" ("KSampler" ∷ []) ∷ snapshots "job-1" ∷ []

abbrev later : List Call
later = cancels "job-1" ∷ reports "prompt-1" 4 20 ∷ snapshots "job-1" ∷ []

abbrev finished_job : Job
finished_job = record {
  job_id = "job-1";
  workflow_id = "flow";
  prompt_id = "prompt-1";
  created_at = "now";
  state = completed;
  results = record { index = 0; kind = "image"; media_type = "image/png"; output = picture } ∷ [];
  error = none;
  progress = none;
  node_types = "KSampler" ∷ [];
  queue_deleted = false;
}

abbrev after_script : JobStore
after_script = (calls words api script empty 3).0

script_finishes : lookup "job-1" after_script.jobs ≡ some finished_job
unfolding calls lookup call snapshot get has_key insert refresh on_history JobView_discrete
    String_discrete to_view ℕ_discrete media_type Progress_discrete job_results results_from
    apply_history create commit is_view name_set new_id new_job publish version write
script_finishes = refl

abbrev open_job : Job
open_job = record finished_job { state = JobState.queued; results = [] }

abbrev open_store : JobStore
open_store = commit open_job empty

-- A ComfyUI that deletes nothing, and whose history and queue miss the prompt when asked again.
abbrev forgetful : ComfyApi ℕ
forgetful = record api {
  history = λ p now. (answered no_entry, now + 1);
  queue_place =
      λ p now. (answered (if ltb now 1 then QueuePlace.pending else QueuePlace.absent), now + 1);
}

calls-IsWell_example : IsWell (calls words api script empty 3).0
calls-IsWell_example = calls-IsWell words api script 3

calls_terminal_example : SameAt "job-1" after_script (calls words api later after_script 0).0
calls_terminal_example =
    calls_terminal words api script later 3 0 "job-1" finished_job script_finishes refl

calls_version_example : Moved "job-1" after_script (calls words api later after_script 0).0
calls_version_example = calls_version words api script later 3 0 "job-1"

refresh-Concluded_example :
    let (after, s, _) = refresh words api open_job open_store 3 in
    Concluded words open_job (answered finished_entry) (answered QueuePlace.running) after
    × (lookup "job-1" s.jobs ≡ some after)
refresh-Concluded_example =
    refresh-Concluded words api open_job open_store 3 refl (unfold commit lookup insert in refl)

cancel_job-Guarded_example :
    Guarded "prompt-1" (cancel_job words (logged api) open_job open_store (0, [])).2.1
cancel_job-Guarded_example = cancel_job-Guarded words api "prompt-1" open_job open_store 0 refl

late_place_reopens_example :
    let done = apply_history words finished_entry open_job in
    let late = on_place words api done (commit done open_store) (answered QueuePlace.running) 0 in
    (done.state ≡ completed)
    × (late.0.state ≡ running)
    × (late.0.results ≡ job_results words.guess_type (picture ∷ []))
    × (lookup late.0.job_id late.1.views ≡ some (to_view late.0))
late_place_reopens_example =
    late_place_reopens words api open_job open_store finished_entry 0 refl refl refl

cancel_concludes_example :
    let (job, s, _) = cancel_read words forgetful open_job open_store 0 in
    (job.state ≡ cancelled)
    × (job.results ≡ [])
    × ((w : ℕ) → refresh words forgetful job s w ≡ (job, s, w))
cancel_concludes_example =
    cancel_concludes words forgetful open_job open_store no_entry 0 1 1 2 3 refl refl refl refl refl
      refl
