-- ===== src/Jobs/Cancel.antt =====
-- What `cancel` (jobs.py) sends to ComfyUI, seen in the log of a client that writes down each call.
use local_canvas.Prelude.{String, ◌≡◌, refl, true, List, [], ◌∷◌, arith, inl, inr, Bool-cases, ◌∙◌}
use local_canvas.Comfy.{QueuePlace, HistoryEntry, Reply, answered, unreachable, ComfyApi}
use local_canvas.Jobs.Job.{Job, is_terminal}
use local_canvas.Jobs.Store.{
  JobStore, Wording, apply_history, settle_queue, on_place, on_history, refresh, on_deleted,
  on_interrupted, deliver, cancel_read, cancel_job,
}

pub data Ask : Type 0 where
  asked_history : String → Ask
  saw_place : String → Reply QueuePlace → Ask
  deleted : String → Ask
  interrupted : Ask

-- The client, with a log of its calls, the newest first.
abbrev pub logged : {W : Type 0} → ComfyApi W → ComfyApi (W × List Ask)
logged api = record {
  history = λ p u. let (r, w) = api.history p u.0 in (r, (w, asked_history p ∷ u.1));
  queue_place = λ p u. let (r, w) = api.queue_place p u.0 in (r, (w, saw_place p r ∷ u.1));
  delete_queued = λ p u. let (r, w) = api.delete_queued p u.0 in (r, (w, deleted p ∷ u.1));
  interrupt = λ u. let (r, w) = api.interrupt u.0 in (r, (w, interrupted ∷ u.1));
}

abbrev pub JustSaw : String → QueuePlace → List Ask → Type 0
JustSaw p place (saw_place q r ∷ log) = (q ≡ p) × (r ≡ answered place)
JustSaw p place _ = ⊥

-- An interrupt stands right after a look at the queue that found this prompt running, and a
-- deletion deletes this prompt, right after a look that found it waiting.
abbrev pub Guarded : String → List Ask → Type 0
Guarded p [] = Unit
Guarded p (asked_history q ∷ log) = Guarded p log
Guarded p (saw_place q r ∷ log) = Guarded p log
Guarded p (deleted q ∷ log) = (q ≡ p) × JustSaw p QueuePlace.pending log × Guarded p log
Guarded p (interrupted ∷ log) = JustSaw p QueuePlace.running log × Guarded p log

prompt_id-settle_queue :
    (place : QueuePlace) (job : Job) → (settle_queue place job).prompt_id ≡ job.prompt_id
unfolding settle_queue
prompt_id-settle_queue QueuePlace.running job = refl
prompt_id-settle_queue QueuePlace.pending job = refl
prompt_id-settle_queue QueuePlace.absent job = ground arith

module _ {W : Type 0} (words : Wording) (api : ComfyApi W) where
  on_place-prompt_id :
      (job : Job) (s : JobStore) (place : Reply QueuePlace) (w : W)
      → (on_place words api job s place w).0.prompt_id ≡ job.prompt_id
  unfolding on_place
  on_place-prompt_id job s unreachable w = refl
  on_place-prompt_id job s (answered p) w = prompt_id-settle_queue p job

  on_history-prompt_id :
      (job : Job) (s : JobStore) (entry : Reply HistoryEntry) (w : W)
      → (on_history words api job s entry w).0.prompt_id ≡ job.prompt_id
  unfolding on_history apply_history
  on_history-prompt_id job s unreachable w = refl
  on_history-prompt_id job s (answered e) w =
      let (place, w') = api.queue_place job.prompt_id w in
      ground (arith, on_place-prompt_id job s place w')

  refresh-prompt_id :
      (job : Job) (s : JobStore) (w : W) → (refresh words api job s w).0.prompt_id ≡ job.prompt_id
  unfolding refresh
  refresh-prompt_id job s w =
      let (entry, w') = api.history job.prompt_id w in
      ground (arith, on_history-prompt_id job s entry w')

  -- A job that the first read finds over is answered as that read left it, and nothing is sent.
  pub cancel_job_over :
      (job : Job) (s : JobStore) (w : W)
      → is_terminal (refresh words api job s w).0.state ≡ true
      → cancel_job words api job s w ≡ refresh words api job s w
  unfolding cancel_job cancel_read
  cancel_job_over job s w over = rw over

module _ {W : Type 0} (words : Wording) (api : ComfyApi W) (p : String) where
  abbrev Log : W × List Ask → Type 0
  Log u = Guarded p u.1

  on_history-Guarded :
      (job : Job) (s : JobStore) (entry : Reply HistoryEntry) (u : W × List Ask)
      → Log u
      → Log (on_history words (logged api) job s entry u).2
  unfolding on_history on_place
  on_history-Guarded job s unreachable u g = g
  on_history-Guarded job s (answered e) u g = elim (Bool-cases e.found) [
    | inl found ↦ simp found g
    | inr missing ↦ simp missing (on_place-Guarded (api.queue_place job.prompt_id u.0).0)
  ]
    where
      on_place-Guarded :
          (place : Reply QueuePlace)
          → Log
              (on_place words
                (logged api)
                job
                s
                place
                ((api.queue_place job.prompt_id u.0).1, saw_place job.prompt_id place ∷ u.1)).2
      on_place-Guarded unreachable = g
      on_place-Guarded (answered q) = g

  refresh-Guarded :
      (job : Job) (s : JobStore) (u : W × List Ask)
      → Log u
      → Log (refresh words (logged api) job s u).2
  unfolding refresh
  refresh-Guarded job s u g = elim (Bool-cases (is_terminal job.state)) [
    | inl over ↦ simp over g
    | inr going ↦ simp going (
        on_history-Guarded job s (api.history job.prompt_id u.0).0
          ((api.history job.prompt_id u.0).1, asked_history job.prompt_id ∷ u.1) g)
  ]

  on_deleted-Guarded :
      (job : Job) (s : JobStore) (done : Reply (Unit {0})) (u : W × List Ask)
      → Log u
      → Log (on_deleted words (logged api) job s done u).2
  unfolding on_deleted
  on_deleted-Guarded job s unreachable u g = g
  on_deleted-Guarded job s (answered _) u g = refresh-Guarded _ _ u g

  on_interrupted-Guarded :
      (job : Job) (s : JobStore) (done : Reply (Unit {0})) (u : W × List Ask)
      → Log u
      → Log (on_interrupted words (logged api) job s done u).2
  unfolding on_interrupted
  on_interrupted-Guarded job s unreachable u g = g
  on_interrupted-Guarded job s (answered _) u g = refresh-Guarded job s u g

  deliver-Guarded :
      (job : Job) (s : JobStore) (place : Reply QueuePlace) (w : W) (log : List Ask)
      → job.prompt_id ≡ p
      → Guarded p log
      → Log (deliver words (logged api) job s place (w, saw_place job.prompt_id place ∷ log)).2
  unfolding deliver
  deliver-Guarded job s unreachable w log e g = g
  deliver-Guarded job s (answered QueuePlace.pending) w log e g =
      let (done, w') = api.delete_queued job.prompt_id w in
      on_deleted-Guarded job s done
        (w', deleted job.prompt_id ∷ saw_place job.prompt_id (answered QueuePlace.pending) ∷ log)
        (e, (e, refl), g)
  deliver-Guarded job s (answered QueuePlace.running) w log e g =
      let (done, w') = api.interrupt w in
      on_interrupted-Guarded job s done
        (w', interrupted ∷ saw_place job.prompt_id (answered QueuePlace.running) ∷ log)
        ((e, refl), g)
  deliver-Guarded job s (answered QueuePlace.absent) w log e g =
      refresh-Guarded job s (w, saw_place job.prompt_id (answered QueuePlace.absent) ∷ log) g

  cancel_read-Guarded :
      (job : Job) (s : JobStore) (u : W × List Ask)
      → job.prompt_id ≡ p
      → Log u
      → Log (cancel_read words (logged api) job s u).2
  unfolding cancel_read
  cancel_read-Guarded job s u e g = elim (Bool-cases (is_terminal job.state)) [
    | inl over ↦ simp over g
    | inr going ↦ simp going (
        deliver-Guarded job s (api.queue_place job.prompt_id u.0).0
          (api.queue_place job.prompt_id u.0).1 u.1 e g)
  ]

  -- A cancel never stops another generation: whatever ComfyUI answers, each interrupt that it
  -- sends stands right after a look at the queue that found this job's prompt running, and each
  -- deletion names this job's prompt, right after a look that found it waiting.
  pub cancel_job-Guarded :
      (job : Job) (s : JobStore) (w : W)
      → job.prompt_id ≡ p
      → Guarded p (cancel_job words (logged api) job s (w, [])).2.1
  unfolding cancel_job
  cancel_job-Guarded job s w e =
      let (job', s', u) = refresh words (logged api) job s (w, []) in
      cancel_read-Guarded job' s' u (refresh-prompt_id words (logged api) job s (w, []) ∙ e)
        (refresh-Guarded job s (w, []) tt)
