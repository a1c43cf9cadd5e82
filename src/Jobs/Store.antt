-- ===== src/Jobs/Store.antt =====
-- `JobStore` of gateway/localcanvas_gateway/jobs.py. A `Job` object is the entry of `jobs` under
-- its id: a method that mutates it writes the entry. What runs under the lock is one function;
-- a call of ComfyUI changes the world `W`.
use mathlib.Core.Logic.{ite}
use local_canvas.Prelude.{
  ℕ, ◌+◌, String, Bool, true, false, not, Option, none, some, List, [], ◌∷◌, any, filter, length,
  ◌==◌, if◌then◌else◌,
}
use local_canvas.Prelude.Dict.{Dict, lookup, insert, has_key, values}
use local_canvas.Comfy.{
  QueuePlace, ExecutionError, HistoryEntry, Reply, answered, unreachable, ComfyApi,
}
use local_canvas.Jobs.Job.{
  Job, JobView, Progress, queued, running, completed, failed, cancelled, is_terminal, to_view,
  JobView_discrete, Progress_discrete, job_results, failure,
}

pub record JobStore : Type 0 where
  pub jobs : Dict Job
  pub by_prompt : Dict String
  pub views : Dict JobView
  pub versions : Dict ℕ

abbrev pub empty : JobStore
empty = record { jobs = []; by_prompt = []; views = []; versions = [] }

-- `self._versions.get(job_id, 0)`
unfoldable pub version : JobStore → String → ℕ
version s job_id = elim (lookup job_id s.versions) [ none ↦ 0 | some n ↦ n ]

-- `self._views.get(job.job_id) == view`
unfoldable pub is_view : Option JobView → JobView → Bool
is_view none v = false
is_view (some u) v = ite (JobView_discrete u v) true false

-- `_publish`: a snapshot that has not changed publishes nothing.
unfoldable pub publish : Job → JobStore → JobStore
unfolding is_view version
publish job s = if is_view (lookup job.job_id s.views) (to_view job) then s else record s {
  views = insert job.job_id (to_view job) s.views;
  versions = insert job.job_id (version s job.job_id + 1) s.versions;
}

-- An assignment to a field of the job that the store holds.
unfoldable pub write : Job → JobStore → JobStore
write job s = record s { jobs = insert job.job_id job s.jobs }

unfoldable pub commit : Job → JobStore → JobStore
unfolding publish write
commit job s = publish job (write job s)

-- `_new_id`: the first of the ids drawn that names no job; `none` when the draws run out.
unfoldable pub new_id : List String → JobStore → Option String
new_id [] s = none
new_id (candidate ∷ draws) s = if has_key candidate s.jobs then new_id draws s else some candidate

-- `frozenset(name for name in node_types if name)`
unfoldable pub name_set : List String → List String
name_set [] = []
name_set (name ∷ names) =
    let rest = name_set names in
    if name == "" then rest else if any (λ other. other == name) rest then rest else name ∷ rest

unfoldable pub new_job : String → String → String → String → List String → Job
unfolding name_set
new_job job_id workflow_id prompt_id now node_types = record {
  job_id = job_id;
  workflow_id = workflow_id;
  prompt_id = prompt_id;
  created_at = now;
  state = queued;
  results = [];
  error = none;
  progress = none;
  node_types = name_set node_types;
  queue_deleted = false;
}

-- `create`, with the ids that `uuid4` would draw and the time that `_now` would read.
unfoldable pub create :
    List String → String → String → String → List String → JobStore → Option (Job × JobStore)
unfolding new_id new_job commit
create draws now workflow_id prompt_id node_types s = elim (new_id draws s) [
  | none ↦ none
  | some job_id ↦
      let job = new_job job_id workflow_id prompt_id now node_types in
      some (
        job,
        publish job (record (write job s) { by_prompt = insert prompt_id job_id s.by_prompt }),
      )
]

-- `get`
unfoldable pub get : JobStore → String → Option Job
get s job_id = lookup job_id s.jobs

-- `active_count`
unfoldable pub active_count : JobStore → ℕ
active_count s = length (filter (λ (job : Job). not (is_terminal job.state)) (values s.jobs))

-- `_for_prompt`
unfoldable pub for_prompt : JobStore → String → Option Job
for_prompt s prompt_id = elim (lookup prompt_id s.by_prompt) [
  | none ↦ none
  | some job_id ↦ if job_id == "" then none else lookup job_id s.jobs
]

-- `published`
unfoldable pub published : JobStore → String → Option (ℕ × JobView)
unfolding version
published s job_id = elim (lookup job_id s.views) [
  | none ↦ none
  | some view ↦ some (version s job_id, view)
]

-- The body of `refresh` under the lock, once `/queue` has answered.
unfoldable pub settle_queue : QueuePlace → Job → Job
settle_queue QueuePlace.running job = record job { queue_deleted = false; state = running }
settle_queue QueuePlace.pending job = record job { queue_deleted = false; state = queued }
settle_queue QueuePlace.absent job =
    if job.queue_deleted
    then record job { state = cancelled; progress = none; results = []; error = none }
    else job

-- The platform, and the scrubber `_reason`, which are not modelled.
pub record Wording : Type 0 where
  pub guess_type : String → Option String
  pub scrub : ExecutionError → List String → Option String

module _ (words : Wording) where
  -- `_apply_history`
  unfoldable pub apply_history : HistoryEntry → Job → Job
  apply_history entry job =
      if entry.interrupted
      then record job { state = cancelled; progress = none; results = []; error = none }
      else if entry.failed
      then record job {
        state = failed;
        error = some (failure words.scrub entry.error job.node_types);
        results = [];
        progress = none;
      }
      else if entry.finished
      then record job {
        state = completed;
        results = job_results words.guess_type entry.outputs;
        error = none;
        progress = none;
      }
      else record job { state = running }

module _ {W : Type 0} (words : Wording) (api : ComfyApi W) where
  -- `refresh`, once `/queue` has answered.
  unfoldable pub on_place : Job → JobStore → Reply QueuePlace → W → Job × JobStore × W
  on_place job s unreachable w = (job, s, w)
  on_place job s (answered p) w = (settle_queue p job, commit (settle_queue p job) s, w)

  -- `refresh`, once `/history` has answered.
  unfoldable pub on_history : Job → JobStore → Reply HistoryEntry → W → Job × JobStore × W
  on_history job s unreachable w = (job, s, w)
  on_history job s (answered e) w =
      if e.found
      then (apply_history words e job, commit (apply_history words e job) s, w)
      else (let (place, w') = api.queue_place job.prompt_id w in on_place job s place w')

  -- `refresh`
  unfoldable pub refresh : Job → JobStore → W → Job × JobStore × W
  refresh job s w =
      if is_terminal job.state
      then (job, s, w)
      else (let (entry, w') = api.history job.prompt_id w in on_history job s entry w')

  -- `snapshot`
  unfoldable pub snapshot : String → JobStore → W → Option Job × JobStore × W
  snapshot job_id s w = elim (get s job_id) [
    | none ↦ (none, s, w)
    | some job ↦ let (job', s', w') = refresh job s w in (some job', s', w')
  ]

  -- `cancel`, once `POST /queue` has answered: the claim that the prompt is gone, and the last read.
  unfoldable pub on_deleted : Job → JobStore → Reply (Unit {0}) → W → Job × JobStore × W
  on_deleted job s unreachable w = (job, s, w)
  on_deleted job s (answered _) w =
      refresh (record job { queue_deleted = true }) (write (record job { queue_deleted = true }) s)
        w

  -- `cancel`, once `POST /interrupt` has answered.
  unfoldable pub on_interrupted : Job → JobStore → Reply (Unit {0}) → W → Job × JobStore × W
  on_interrupted job s unreachable w = (job, s, w)
  on_interrupted job s (answered _) w = refresh job s w

  -- `cancel`, once `/queue` has said where the prompt is.
  unfoldable pub deliver : Job → JobStore → Reply QueuePlace → W → Job × JobStore × W
  deliver job s unreachable w = (job, s, w)
  deliver job s (answered QueuePlace.pending) w =
      let (done, w') = api.delete_queued job.prompt_id w in on_deleted job s done w'
  deliver job s (answered QueuePlace.running) w =
      let (done, w') = api.interrupt w in on_interrupted job s done w'
  deliver job s (answered QueuePlace.absent) w = refresh job s w

  -- `cancel` of a job that the store has, after its first read.
  unfoldable pub cancel_read : Job → JobStore → W → Job × JobStore × W
  cancel_read job s w =
      if is_terminal job.state
      then (job, s, w)
      else (let (place, w') = api.queue_place job.prompt_id w in deliver job s place w')

  unfoldable pub cancel_job : Job → JobStore → W → Job × JobStore × W
  cancel_job job s w = let (job', s', w') = refresh job s w in cancel_read job' s' w'

  -- `cancel`
  unfoldable pub cancel : String → JobStore → W → Option Job × JobStore × W
  cancel job_id s w = elim (get s job_id) [
    | none ↦ (none, s, w)
    | some job ↦ let (job', s', w') = cancel_job job s w in (some job', s', w')
  ]

  -- `note_change`
  unfoldable pub note_change : String → JobStore → W → JobStore × W
  note_change prompt_id s w = elim (for_prompt s prompt_id) [
    | none ↦ (s, w)
    | some job ↦ let (_, s', w') = refresh job s w in (s', w')
  ]

-- `job.progress == reported`
unfoldable pub is_progress : Option Progress → Progress → Bool
is_progress none p = false
is_progress (some q) p = ite (Progress_discrete q p) true false

unfoldable pub progress_on : Job → Progress → JobStore → JobStore
unfolding is_progress commit
progress_on job reported s =
    if is_terminal job.state
    then s
    else if is_progress job.progress reported
    then s
    else commit (record job { progress = some reported }) s

-- `note_progress`
unfoldable pub note_progress : String → ℕ → ℕ → JobStore → JobStore
unfolding for_prompt progress_on
note_progress prompt_id step total s = elim (for_prompt s prompt_id) [
  | none ↦ s
  | some job ↦ progress_on job (record { step = step; total = total }) s
]
