-- ===== src/Jobs/Job.antt =====
-- gateway/localcanvas_gateway/jobs.py: the five states, a job and the snapshot of it that the app
-- is shown.
use native.Mathlib.Decide.{ℕ_discrete}
use local_canvas.Prelude.{
  ℕ, ◌+◌, String, ◌<>◌, Bool, true, false, Option, none, some, List, [], ◌∷◌, map, ◌==◌,
  if◌then◌else◌,
}
use local_canvas.Prelude.Text.{show, String_discrete}
use local_canvas.Comfy.{OutputFile, ExecutionError, media_type}

pub data JobState : Type 0 where
  queued running completed failed cancelled : JobState

-- `state in TERMINAL_STATES`
abbrev pub is_terminal : JobState → Bool
is_terminal queued = false
is_terminal running = false
is_terminal completed = true
is_terminal failed = true
is_terminal cancelled = true

-- `JobState.value`
unfoldable pub state_value : JobState → String
state_value queued = "queued"
state_value running = "running"
state_value completed = "completed"
state_value failed = "failed"
state_value cancelled = "cancelled"

pub record Progress : Type 0 where
  pub step : ℕ
  pub total : ℕ

pub record JobError : Type 0 where
  pub code : String
  pub message : String
  pub field : Option String

pub record JobResult : Type 0 where
  pub index : ℕ
  pub kind : String
  pub media_type : String
  pub output : OutputFile

pub record Job : Type 0 where
  pub job_id : String
  pub workflow_id : String
  pub prompt_id : String
  pub created_at : String
  pub state : JobState
  pub results : List JobResult
  pub error : Option JobError
  pub progress : Option Progress
  pub node_types : List String
  pub queue_deleted : Bool

pub record ResultView : Type 0 where
  pub index : ℕ
  pub kind : String
  pub media_type : String
  pub path : String

-- `RESULT_PATH.format(job_id=…, index=…)`
unfoldable pub result_path : String → ℕ → String
result_path job_id index = "/api/v1/jobs/" <> job_id <> "/result/" <> show index

-- `JobResult.to_view`: the ComfyUI handle does not cross.
unfoldable pub result_view : String → JobResult → ResultView
unfolding result_path
result_view job_id r = record {
  index = r.index;
  kind = r.kind;
  media_type = r.media_type;
  path = result_path job_id r.index;
}

-- The snapshot: no prompt id, no node type, no handle.
pub record JobView : Type 0 where
  pub job_id : String
  pub workflow_id : String
  pub state : JobState
  pub progress : Option Progress
  pub results : List ResultView
  pub error : Option JobError

-- `Job.to_view`
unfoldable pub to_view : Job → JobView
to_view job = record {
  job_id = job.job_id;
  workflow_id = job.workflow_id;
  state = job.state;
  progress = job.progress;
  results = map (result_view job.job_id) job.results;
  error = job.error;
}

-- `==` on two snapshots, as on two dicts.
unfoldable pub JobView_discrete : Discrete JobView
JobView_discrete = hlevel (ℕ_discrete, String_discrete)

unfoldable pub Progress_discrete : Discrete Progress
Progress_discrete = hlevel (ℕ_discrete)

-- `_results`: the outputs numbered from 0.
unfoldable pub results_from : (String → Option String) → ℕ → List OutputFile → List JobResult
results_from guess_type n [] = []
results_from guess_type n (o ∷ outputs) =
    record { index = n; kind = o.kind; media_type = media_type guess_type o; output = o }
    ∷ results_from guess_type (n + 1) outputs

unfoldable pub job_results : (String → Option String) → List OutputFile → List JobResult
unfolding results_from
job_results guess_type outputs = results_from guess_type 0 outputs

with_reason : Option String → String
with_reason none = "ComfyUI could not finish this generation."
with_reason (some reason) =
    if reason == ""
    then "ComfyUI could not finish this generation."
    else "ComfyUI could not finish this generation. It reported: " <> reason

reason_of :
    (ExecutionError → List String → Option String)
    → Option ExecutionError
    → List String
    → Option String
reason_of scrub none node_types = none
reason_of scrub (some error) node_types = scrub error node_types

-- `_failure`: a sentence, and the bounded reason where the scrubber leaves one.
unfoldable pub failure :
    (ExecutionError → List String → Option String) → Option ExecutionError → List String → JobError
unfolding with_reason reason_of
failure scrub error node_types = record {
  code = "generation_failed";
  message = with_reason (reason_of scrub error node_types);
  field = none;
}
