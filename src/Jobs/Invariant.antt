-- ===== src/Jobs/Invariant.antt =====
-- What holds of the job store between two locked sections (jobs.py): every job has the shape of
-- its state, and the published snapshot of every job is its snapshot.
use local_canvas.Prelude.{
  ◌≤◌, String, ◌≡◌, refl, true, false, Option, none, some, List, [], arith, ◌==◌, eq_iff,
  if◌then◌else◌, ◌≢◌, ap,
}
use local_canvas.Prelude.Dict.{lookup, insert, lookup-insert}
use local_canvas.Comfy.{QueuePlace, HistoryEntry}
use local_canvas.Jobs.Job.{
  JobState, Job, JobView, JobResult, JobError, Progress, queued, running, completed, failed,
  cancelled, is_terminal, to_view,
}
use local_canvas.Jobs.Store.{
  JobStore, Wording, empty, version, apply_history, settle_queue, publish, write, commit, new_job,
}
use local_canvas.Jobs.Commit.{
  jobs-publish, views-publish, version-publish, version_same, is_view-true,
}
use local_canvas.Jobs.Sections.{
  IsOpen, Section, finds_entry, finds_place, claims, progresses, creates, Run, here, next,
}

-- A job that is open or cancelled has no result and no error, a failed one an error and no result,
-- a completed one no error; a job that is over has no progress.
abbrev pub ShapeOf : JobState → List JobResult → Option JobError → Option Progress → Type 0
ShapeOf queued rs e p = (rs ≡ []) × (e ≡ none)
ShapeOf running rs e p = (rs ≡ []) × (e ≡ none)
ShapeOf completed rs e p = (e ≡ none) × (p ≡ none)
ShapeOf failed rs e p = (rs ≡ []) × (e ≢ none) × (p ≡ none)
ShapeOf cancelled rs e p = (rs ≡ []) × (e ≡ none) × (p ≡ none)

abbrev pub HasShape : Job → Type 0
HasShape job = ShapeOf job.state job.results job.error job.progress

open_shape :
    (st : JobState) (rs : List JobResult) (e : Option JobError) (p : Option Progress)
    → is_terminal st ≡ false
    → ShapeOf st rs e p
    → (rs ≡ []) × (e ≡ none)
open_shape queued rs e p h sh = sh
open_shape running rs e p h sh = sh
open_shape completed rs e p h sh = cc
open_shape failed rs e p h sh = cc
open_shape cancelled rs e p h sh = cc

shape_open :
    (st : JobState) (rs : List JobResult) (e : Option JobError) (p : Option Progress)
    → is_terminal st ≡ false
    → rs ≡ []
    → e ≡ none
    → ShapeOf st rs e p
shape_open queued rs e p h a b = (a, b)
shape_open running rs e p h a b = (a, b)
shape_open completed rs e p h a b = cc
shape_open failed rs e p h a b = cc
shape_open cancelled rs e p h a b = cc

pub record IsWell (s : JobStore) : Type 0 where
  pub named : (k : String) (job : Job) → lookup k s.jobs ≡ some job → job.job_id ≡ k
  pub shaped : (k : String) (job : Job) → lookup k s.jobs ≡ some job → HasShape job
  pub shown :
      (k : String) (job : Job) → lookup k s.jobs ≡ some job → lookup k s.views ≡ some (to_view job)
  pub counted : (k : String) (v : JobView) → lookup k s.views ≡ some v → 1 ≤ version s k

pub empty-IsWell : IsWell empty
unfolding lookup version
empty-IsWell = record {
  named = λ k job h. cc;
  shaped = λ k job h. cc;
  shown = λ k job h. cc;
  counted = λ k v h. cc;
}

module _ (words : Wording) where
  apply_history-HasShape :
      (e : HistoryEntry) (job : Job)
      → is_terminal job.state ≡ false
      → HasShape job
      → HasShape (apply_history words e job)
  unfolding apply_history
  apply_history-HasShape e job h sh =
      ground (arith, open_shape job.state job.results job.error job.progress h sh)

settle_queue-HasShape :
    (p : QueuePlace) (job : Job)
    → is_terminal job.state ≡ false
    → HasShape job
    → HasShape (settle_queue p job)
unfolding settle_queue
settle_queue-HasShape QueuePlace.running job h sh =
    open_shape job.state job.results job.error job.progress h sh
settle_queue-HasShape QueuePlace.pending job h sh =
    open_shape job.state job.results job.error job.progress h sh
settle_queue-HasShape QueuePlace.absent job h sh =
    ground (arith, open_shape job.state job.results job.error job.progress h sh)

module _ (job : Job) (s t : JobStore) (jobs : t.jobs ≡ insert job.job_id job s.jobs)
    (views : t.views ≡ s.views) (versions : t.versions ≡ s.versions) (w : IsWell s) where
  -- An entry of the new store is the job, under its id, or an entry of the old one.
  lookup_written :
      (k : String)
      → lookup k (publish job t).jobs ≡ (if job.job_id == k then some job else lookup k s.jobs)
  lookup_written k = rw (jobs-publish, jobs) (lookup-insert job.job_id k job s.jobs)

  -- A publication of a job of the right shape keeps the invariant, whatever was under its id.
  publish-IsWell : HasShape job → IsWell (publish job t)
  publish-IsWell sh = record {
    named = λ k j h. ground (arith, lookup_written k, w.named k j, eq_iff job.job_id k);
    shaped = λ k j h. ground (arith, lookup_written k, w.shaped k j);
    shown = λ k j h.
        ground (arith, lookup_written k, views-publish job t k, ap (lookup k) views, w.shown k j);
    counted = λ k v h. ground (
      arith,
      version-publish job t k,
      version_same k s t versions,
      views-publish job t k,
      ap (lookup k) views,
      is_view-true (lookup job.job_id t.views) (to_view job),
      eq_iff job.job_id k,
      w.counted k (to_view job),
      w.counted k v,
    );
  }

commit-IsWell : (job : Job) (s : JobStore) → IsWell s → HasShape job → IsWell (commit job s)
unfolding commit write
commit-IsWell job s w sh = publish-IsWell job s (write job s) refl refl refl w sh

-- The claim that a prompt was deleted is not part of the snapshot, so nothing need be published.
claim-IsWell :
    (job : Job) (s : JobStore)
    → IsOpen job s
    → IsWell s
    → IsWell (write (record job { queue_deleted = true }) s)
unfolding write to_view version
claim-IsWell job s o w =
    let claimed : Job = record job { queue_deleted = true } in
    let at = λ (k : String). lookup-insert job.job_id k claimed s.jobs in
    record {
      named = λ k j h. ground (arith, at k, w.named k j, eq_iff job.job_id k);
      shaped = λ k j h. ground (arith, at k, w.shaped k j, w.shaped job.job_id job, o.held);
      shown = λ k j h.
          ground (arith, at k, w.shown k j, w.shown job.job_id job, o.held, eq_iff job.job_id k);
      counted = w.counted;
    }

module _ (words : Wording) where
  Section-IsWell : {s t : JobStore} → Section words s t → IsWell s → IsWell t
  Section-IsWell {s} (finds_entry job e o) w =
      commit-IsWell (apply_history words e job) s w
        (apply_history-HasShape words e job o.going (w.shaped job.job_id job o.held))
  Section-IsWell {s} (finds_place job p o) w =
      commit-IsWell (settle_queue p job) s w
        (settle_queue-HasShape p job o.going (w.shaped job.job_id job o.held))
  Section-IsWell {s} (claims job o) w = claim-IsWell job s o w
  Section-IsWell {s} (progresses job p o) w =
      let sh =
        open_shape job.state job.results job.error job.progress o.going
          (w.shaped job.job_id job o.held) in
      commit-IsWell (record job { progress = some p }) s w
        (shape_open job.state job.results job.error (some p) o.going sh.0 sh.1)
  Section-IsWell {s} (creates job_id workflow_id prompt_id now types fresh) w =
      let job = new_job job_id workflow_id prompt_id now types in
      publish-IsWell job s
        (record (write job s) { by_prompt = insert prompt_id job_id s.by_prompt })
        (unfold write in refl) (unfold write in refl) (unfold write in refl) w
        (unfold new_job in (refl, refl))

  -- Every run of locked sections keeps the invariant.
  pub Run-IsWell : {s t : JobStore} → Run words s t → IsWell s → IsWell t
  Run-IsWell here w = w
  Run-IsWell (next r step) w = Section-IsWell step (Run-IsWell r w)
