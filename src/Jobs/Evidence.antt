-- ===== src/Jobs/Evidence.antt =====
-- What a refresh (jobs.py) concludes from what ComfyUI answered: each answer decides what becomes of
-- an open job.
use local_canvas.Prelude.{◌≡◌, refl, true, false, some, none, [], Bool-cases, inl, inr, arith}
use local_canvas.Prelude.Dict.{lookup, lookup-insert_self}
use local_canvas.Comfy.{QueuePlace, HistoryEntry, Reply, answered, unreachable, ComfyApi}
use local_canvas.Jobs.Job.{
  JobState, Job, queued, running, completed, cancelled, is_terminal, job_results, failure,
}
use local_canvas.Jobs.Store.{
  JobStore, Wording, apply_history, settle_queue, on_place, on_history, refresh, commit,
}
use local_canvas.Jobs.Commit.{jobs-commit}

-- What becomes of a job, from the answer about its history and the answer about the queue, which is
-- read where the history has no entry. Every pair of answers has its own rule.
pub data Concluded (words : Wording) (job : Job) (h : Reply HistoryEntry) (q : Reply QueuePlace)
    (after : Job) : Type 0 where
  no_history : h ≡ unreachable → after ≡ job → Concluded words job h q after
  interrupted :
      (e : HistoryEntry)
      → h ≡ answered e
      → e.found ≡ true
      → e.interrupted ≡ true
      → after.state ≡ cancelled
      → after.results ≡ []
      → after.error ≡ none
      → Concluded words job h q after
  fails :
      (e : HistoryEntry)
      → h ≡ answered e
      → e.found ≡ true
      → e.interrupted ≡ false
      → e.failed ≡ true
      → after.state ≡ JobState.failed
      → after.results ≡ []
      → after.error ≡ some (failure words.scrub e.error job.node_types)
      → Concluded words job h q after
  finished :
      (e : HistoryEntry)
      → h ≡ answered e
      → e.found ≡ true
      → e.interrupted ≡ false
      → e.failed ≡ false
      → e.finished ≡ true
      → after.state ≡ completed
      → after.results ≡ job_results words.guess_type e.outputs
      → after.error ≡ none
      → Concluded words job h q after
  unfinished :
      (e : HistoryEntry)
      → h ≡ answered e
      → e.found ≡ true
      → e.interrupted ≡ false
      → e.failed ≡ false
      → e.finished ≡ false
      → after ≡ record job { state = running }
      → Concluded words job h q after
  no_queue :
      (e : HistoryEntry)
      → h ≡ answered e
      → e.found ≡ false
      → q ≡ unreachable
      → after ≡ job
      → Concluded words job h q after
  runs :
      (e : HistoryEntry)
      → h ≡ answered e
      → e.found ≡ false
      → q ≡ answered QueuePlace.running
      → after ≡ record job { queue_deleted = false; state = running }
      → Concluded words job h q after
  waits :
      (e : HistoryEntry)
      → h ≡ answered e
      → e.found ≡ false
      → q ≡ answered QueuePlace.pending
      → after ≡ record job { queue_deleted = false; state = queued }
      → Concluded words job h q after
  deleted :
      (e : HistoryEntry)
      → h ≡ answered e
      → e.found ≡ false
      → q ≡ answered QueuePlace.absent
      → job.queue_deleted ≡ true
      → after.state ≡ cancelled
      → after.results ≡ []
      → after.error ≡ none
      → Concluded words job h q after
  unknown :
      (e : HistoryEntry)
      → h ≡ answered e
      → e.found ≡ false
      → q ≡ answered QueuePlace.absent
      → job.queue_deleted ≡ false
      → after ≡ job
      → Concluded words job h q after

module _ (words : Wording) (job : Job) where
  apply_history-Concluded :
      (e : HistoryEntry) (q : Reply QueuePlace)
      → e.found ≡ true
      → Concluded words job (answered e) q (apply_history words e job)
  unfolding apply_history
  apply_history-Concluded e q found = elim (Bool-cases e.interrupted) [
    | inl i ↦ simp i (interrupted e refl found i refl refl refl)
    | inr i ↦ elim (Bool-cases e.failed) [
      | inl f ↦ simp (i, f) (fails e refl found i f refl refl refl)
      | inr f ↦ elim (Bool-cases e.finished) [
        | inl d ↦ simp (i, f, d) (finished e refl found i f d refl refl refl)
        | inr d ↦ simp (i, f, d) (unfinished e refl found i f d refl)
      ]
    ]
  ]

  settle_queue-Concluded :
      (e : HistoryEntry) (p : QueuePlace)
      → e.found ≡ false
      → Concluded words job (answered e) (answered p) (settle_queue p job)
  unfolding settle_queue
  settle_queue-Concluded e QueuePlace.running missing = runs e refl missing refl refl
  settle_queue-Concluded e QueuePlace.pending missing = waits e refl missing refl refl
  settle_queue-Concluded e QueuePlace.absent missing = elim (Bool-cases job.queue_deleted) [
    | inl gone ↦ simp gone (deleted e refl missing refl gone refl refl refl)
    | inr kept ↦ simp kept (unknown e refl missing refl kept refl)
  ]

apply_history-id :
    (words : Wording) (e : HistoryEntry) (job : Job)
    → (apply_history words e job).job_id ≡ job.job_id
unfolding apply_history
apply_history-id words e job = ground arith

settle_queue-id : (p : QueuePlace) (job : Job) → (settle_queue p job).job_id ≡ job.job_id
unfolding settle_queue
settle_queue-id QueuePlace.running job = refl
settle_queue-id QueuePlace.pending job = refl
settle_queue-id QueuePlace.absent job = ground arith

-- A job that was committed is the one that the store holds.
commit-held :
    (job after : Job) (s : JobStore)
    → after.job_id ≡ job.job_id
    → lookup job.job_id (commit after s).jobs ≡ some after
commit-held job after s same =
    rw (jobs-commit after s, ← same) (lookup-insert_self after.job_id after s.jobs)

module _ {W : Type 0} (words : Wording) (api : ComfyApi W) (job : Job) (s : JobStore) (w : W) where
  -- The world after the history read, in which the queue is read.
  abbrev asked : W
  asked = (api.history job.prompt_id w).1

  abbrev history_answer : Reply HistoryEntry
  history_answer = (api.history job.prompt_id w).0

  abbrev queue_answer : Reply QueuePlace
  queue_answer = (api.queue_place job.prompt_id asked).0

  -- What was concluded, and that the store holds it.
  abbrev Kept : Reply HistoryEntry → Reply QueuePlace → Job × JobStore × W → Type 0
  Kept h q r = Concluded words job h q r.0 × (lookup job.job_id r.1.jobs ≡ some r.0)

  on_place-Kept :
      (e : HistoryEntry) (q : Reply QueuePlace) (w' : W)
      → lookup job.job_id s.jobs ≡ some job
      → e.found ≡ false
      → Kept (answered e) q (on_place words api job s q w')
  unfolding on_place
  on_place-Kept e unreachable w' held missing = (no_queue e refl missing refl refl, held)
  on_place-Kept e (answered p) w' held missing = (
    settle_queue-Concluded words job e p missing,
    commit-held job (settle_queue p job) s (settle_queue-id p job),
  )

  on_history-Kept :
      (h : Reply HistoryEntry)
      → lookup job.job_id s.jobs ≡ some job
      → Kept h queue_answer (on_history words api job s h asked)
  unfolding on_history
  on_history-Kept unreachable held = (no_history refl refl, held)
  on_history-Kept (answered e) held = elim (Bool-cases e.found) [
    | inl found ↦ simp found (
      apply_history-Concluded words job e queue_answer found,
      commit-held job (apply_history words e job) s (apply_history-id words e job),
    )
    | inr missing ↦
        simp missing
          (on_place-Kept e queue_answer (api.queue_place job.prompt_id asked).1 held missing)
  ]

  -- What ComfyUI answers to a refresh of an open job that the store holds decides what becomes of the
  -- job, and the store holds that afterwards. An entry of the history cancels the job where it was
  -- interrupted, else fails it with the reason where it failed, else completes it with the files of
  -- the entry where it finished, and else sets it running. Where the history has no entry, a place in
  -- the queue sets it running or queued and takes back a deletion, and an absence cancels it exactly
  -- if its deletion was accepted. With any other answer, or none, the job is as before.
  pub refresh-Concluded :
      is_terminal job.state ≡ false
      → lookup job.job_id s.jobs ≡ some job
      → Concluded words job history_answer queue_answer (refresh words api job s w).0
        × (lookup job.job_id (refresh words api job s w).1.jobs
            ≡ some (refresh words api job s w).0)
  unfolding refresh
  refresh-Concluded going held = simp going (on_history-Kept history_answer held)
