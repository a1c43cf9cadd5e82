-- ===== src/Jobs/Sections.antt =====
-- The locked sections of `JobStore` (jobs.py) as a step relation: what one thread does to the
-- store while it holds the lock, in a method that is not interrupted between its check of the
-- job's state and the section. Every method is a sequence of them.
use local_canvas.Prelude.{
  String, ◌≡◌, refl, true, false, none, some, List, arith, inl, inr, Bool-cases,
}
use local_canvas.Prelude.Dict.{lookup, insert, lookup-insert_self}
use local_canvas.Comfy.{QueuePlace, HistoryEntry, Reply, answered, unreachable, ComfyApi}
use local_canvas.Jobs.Job.{Job, Progress, is_terminal}
use local_canvas.Jobs.Store.{
  JobStore, Wording, apply_history, settle_queue, publish, write, commit, new_job, on_place,
  on_history, refresh, on_deleted, on_interrupted, deliver, cancel_read, cancel_job,
}
use local_canvas.Jobs.Commit.{jobs-commit}

-- The job is an open entry of the store.
pub record IsOpen (job : Job) (s : JobStore) : Type 0 where
  pub held : lookup job.job_id s.jobs ≡ some job
  pub going : is_terminal job.state ≡ false

module _ (words : Wording) where
  pub data Section (s : JobStore) : JobStore → Type 0 where
    finds_entry :
        (job : Job) (entry : HistoryEntry)
        → IsOpen job s
        → Section s (commit (apply_history words entry job) s)
    finds_place :
        (job : Job) (place : QueuePlace)
        → IsOpen job s
        → Section s (commit (settle_queue place job) s)
    claims : (job : Job) → IsOpen job s → Section s (write (record job { queue_deleted = true }) s)
    progresses :
        (job : Job) (p : Progress)
        → IsOpen job s
        → Section s (commit (record job { progress = some p }) s)
    creates :
        (job_id workflow_id prompt_id now : String) (node_types : List String)
        → lookup job_id s.jobs ≡ none
        → Section s (
            publish
              (new_job job_id workflow_id prompt_id now node_types)
              (record (write (new_job job_id workflow_id prompt_id now node_types) s) {
                by_prompt = insert prompt_id job_id s.by_prompt;
              }))

  pub data Run (s : JobStore) : JobStore → Type 0 where
    here : Run s s
    next : {t u : JobStore} → Run s t → Section t u → Run s u

  pub Run-trans : {s t u : JobStore} → Run s t → Run t u → Run s u
  Run-trans r here = r
  Run-trans r (next q step) = next (Run-trans r q) step

  -- An entry of the history keeps the ids of the job.
  pub job_id-apply_history :
      (entry : HistoryEntry) (job : Job) → (apply_history words entry job).job_id ≡ job.job_id
  unfolding apply_history
  job_id-apply_history entry job = ground arith

pub job_id-settle_queue :
    (place : QueuePlace) (job : Job) → (settle_queue place job).job_id ≡ job.job_id
unfolding settle_queue
job_id-settle_queue QueuePlace.running job = refl
job_id-settle_queue QueuePlace.pending job = refl
job_id-settle_queue QueuePlace.absent job = ground arith

pub lookup-commit : (job : Job) (s : JobStore) → lookup job.job_id (commit job s).jobs ≡ some job
lookup-commit job s = rw jobs-commit (lookup-insert_self job.job_id job s.jobs)

module _ {W : Type 0} (words : Wording) (api : ComfyApi W) where
  -- A method that answered with a job: its run, and the job is the entry under its id.
  pub record Ran (s : JobStore) (out : Job × JobStore × W) : Type 0 where
    pub run : Run words s out.1
    pub held : lookup out.0.job_id out.1.jobs ≡ some out.0

  settled :
      (s : JobStore) (job : Job) (w : W)
      → Section words s (commit job s)
      → Ran s (job, commit job s, w)
  settled s job w step = record { run = next here step; held = lookup-commit job s }

  on_place-Ran :
      (job : Job) (s : JobStore) (place : Reply QueuePlace) (w : W)
      → IsOpen job s
      → Ran s (on_place words api job s place w)
  unfolding on_place
  on_place-Ran job s unreachable w o = record { run = here; held = o.held }
  on_place-Ran job s (answered p) w o = settled s (settle_queue p job) w (finds_place job p o)

  on_history-Ran :
      (job : Job) (s : JobStore) (entry : Reply HistoryEntry) (w : W)
      → IsOpen job s
      → Ran s (on_history words api job s entry w)
  unfolding on_history
  on_history-Ran job s unreachable w o = record { run = here; held = o.held }
  on_history-Ran job s (answered e) w o = elim (Bool-cases e.found) [
    | inl found ↦ simp found (settled s (apply_history words e job) w (finds_entry job e o))
    | inr missing ↦
        simp missing
          (let (place, w') = api.queue_place job.prompt_id w in on_place-Ran job s place w' o)
  ]

  -- Whatever ComfyUI answers, a refresh is a run of locked sections.
  pub refresh-Ran :
      (job : Job) (s : JobStore) (w : W)
      → lookup job.job_id s.jobs ≡ some job
      → Ran s (refresh words api job s w)
  unfolding refresh
  refresh-Ran job s w h = elim (Bool-cases (is_terminal job.state)) [
    | inl over ↦ simp over (record { run = here; held = h })
    | inr going ↦ simp going (
        let (entry, w') = api.history job.prompt_id w in
        on_history-Ran job s entry w' (record { held = h; going = going }))
  ]

  after : {s t : JobStore} (out : Job × JobStore × W) → Run words s t → Ran t out → Ran s out
  after out r q = record { run = Run-trans words r q.run; held = q.held }

  on_deleted-Ran :
      (job : Job) (s : JobStore) (done : Reply (Unit {0})) (w : W)
      → IsOpen job s
      → Ran s (on_deleted words api job s done w)
  unfolding on_deleted write
  on_deleted-Ran job s unreachable w o = record { run = here; held = o.held }
  on_deleted-Ran job s (answered _) w o =
      let claimed : Job = record job { queue_deleted = true } in
      after (refresh words api claimed (write claimed s) w) (next here (claims job o))
        (refresh-Ran claimed (write claimed s) w (lookup-insert_self job.job_id claimed s.jobs))

  on_interrupted-Ran :
      (job : Job) (s : JobStore) (done : Reply (Unit {0})) (w : W)
      → IsOpen job s
      → Ran s (on_interrupted words api job s done w)
  unfolding on_interrupted
  on_interrupted-Ran job s unreachable w o = record { run = here; held = o.held }
  on_interrupted-Ran job s (answered _) w o = refresh-Ran job s w o.held

  deliver-Ran :
      (job : Job) (s : JobStore) (place : Reply QueuePlace) (w : W)
      → IsOpen job s
      → Ran s (deliver words api job s place w)
  unfolding deliver
  deliver-Ran job s unreachable w o = record { run = here; held = o.held }
  deliver-Ran job s (answered QueuePlace.pending) w o =
      let (done, w') = api.delete_queued job.prompt_id w in on_deleted-Ran job s done w' o
  deliver-Ran job s (answered QueuePlace.running) w o =
      let (done, w') = api.interrupt w in on_interrupted-Ran job s done w' o
  deliver-Ran job s (answered QueuePlace.absent) w o = refresh-Ran job s w o.held

  cancel_read-Ran :
      (job : Job) (s : JobStore) (w : W)
      → lookup job.job_id s.jobs ≡ some job
      → Ran s (cancel_read words api job s w)
  unfolding cancel_read
  cancel_read-Ran job s w h = elim (Bool-cases (is_terminal job.state)) [
    | inl over ↦ simp over (record { run = here; held = h })
    | inr going ↦ simp going (
        let (place, w') = api.queue_place job.prompt_id w in
        deliver-Ran job s place w' (record { held = h; going = going }))
  ]

  -- Whatever ComfyUI answers, a cancel is a run of locked sections.
  pub cancel_job-Ran :
      (job : Job) (s : JobStore) (w : W)
      → lookup job.job_id s.jobs ≡ some job
      → Ran s (cancel_job words api job s w)
  unfolding cancel_job
  cancel_job-Ran job s w h =
      let first = refresh-Ran job s w h in
      let (job', s', w') = refresh words api job s w in
      after (cancel_read words api job' s' w') first.run (cancel_read-Ran job' s' w' first.held)
