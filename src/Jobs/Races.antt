-- ===== src/Jobs/Races.antt =====
-- Interleavings of `refresh` and `cancel` (jobs.py) with another thread and with ComfyUI itself:
-- the state is checked before the calls of ComfyUI, and the lock is taken only after them.
use local_canvas.Prelude.{◌≡◌, refl, true, false, some, [], eq_refl}
use local_canvas.Prelude.Dict.{lookup}
use local_canvas.Comfy.{QueuePlace, HistoryEntry, answered, ComfyApi}
use local_canvas.Jobs.Job.{Job, running, completed, cancelled, is_terminal, job_results, to_view}
use local_canvas.Jobs.Store.{
  JobStore, Wording, apply_history, settle_queue, commit, write, on_place, on_history, refresh,
  on_deleted, deliver, cancel_read,
}
use local_canvas.Jobs.Commit.{views-publish}

views-commit_self :
    (job : Job) (s : JobStore) → lookup job.job_id (commit job s).views ≡ some (to_view job)
unfolding commit
views-commit_self job s = rw (views-publish job (write job s) job.job_id, eq_refl)

module _ {W : Type 0} (words : Wording) (api : ComfyApi W) (job : Job) (s : JobStore) where
  -- Two threads refresh one open job. The first has read that the history has no entry and that
  -- the queue runs the prompt; before it takes the lock, the second finds the finished entry and
  -- completes the job. The section of the first then puts the completed job back to running, with
  -- the results still on it, and publishes that.
  pub late_place_reopens :
      (e : HistoryEntry) (w : W)
      → e.finished ≡ true
      → e.failed ≡ false
      → e.interrupted ≡ false
      → let done = apply_history words e job in
        let late = on_place words api done (commit done s) (answered QueuePlace.running) w in
        (done.state ≡ completed)
        × (late.0.state ≡ running)
        × (late.0.results ≡ job_results words.guess_type e.outputs)
        × (lookup late.0.job_id late.1.views ≡ some (to_view late.0))
  unfolding on_place apply_history settle_queue
  late_place_reopens e w f n i =
      let done = apply_history words e job in
      let late = settle_queue QueuePlace.running done in
      (simp (i, n, f), refl, simp (i, n, f), views-commit_self late (commit done s))

  abbrev claimed : Job
  claimed = record job { queue_deleted = true }

  concluded :
      (e : HistoryEntry) (w w₁ w₂ w₃ w₄ : W)
      → is_terminal job.state ≡ false
      → api.queue_place job.prompt_id w ≡ (answered QueuePlace.pending, w₁)
      → api.delete_queued job.prompt_id w₁ ≡ (answered tt, w₂)
      → api.history job.prompt_id w₂ ≡ (answered e, w₃)
      → e.found ≡ false
      → api.queue_place job.prompt_id w₃ ≡ (answered QueuePlace.absent, w₄)
      → cancel_read words api job s w ≡ (
        settle_queue QueuePlace.absent claimed,
        commit (settle_queue QueuePlace.absent claimed) (write claimed s),
        w₄,
      )
  unfolding cancel_read deliver on_deleted refresh on_history on_place
  concluded e w w₁ w₂ w₃ w₄ going q d h missing gone = simp (going, q, d, h, missing, gone)

  -- A cancel finds the prompt waiting, and ComfyUI accepts the deletion. If one read of the
  -- history and one of the queue then miss the prompt, the job is cancelled, and no later answer
  -- of ComfyUI changes that.
  pub cancel_concludes :
      (e : HistoryEntry) (w w₁ w₂ w₃ w₄ : W)
      → is_terminal job.state ≡ false
      → api.queue_place job.prompt_id w ≡ (answered QueuePlace.pending, w₁)
      → api.delete_queued job.prompt_id w₁ ≡ (answered tt, w₂)
      → api.history job.prompt_id w₂ ≡ (answered e, w₃)
      → e.found ≡ false
      → api.queue_place job.prompt_id w₃ ≡ (answered QueuePlace.absent, w₄)
      → let (job', s', _) = cancel_read words api job s w in
        (job'.state ≡ cancelled)
        × (job'.results ≡ [])
        × ((later : W) → refresh words api job' s' later ≡ (job', s', later))
  cancel_concludes e w w₁ w₂ w₃ w₄ going q d h missing gone =
      rw (concluded e w w₁ w₂ w₃ w₄ going q d h missing gone)
        (unfold settle_queue refresh in (refl, refl, λ later. refl))
