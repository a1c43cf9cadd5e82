-- ===== src/Jobs/Calls.antt =====
-- The methods that the API and the event consumer call on the job store (jobs.py), in any order.
use local_canvas.Prelude.{
  ℕ, String, ◌≡◌, true, Option, none, some, List, [], ◌∷◌, arith, inl, inr, ap, ◌∙◌, Option-cases,
  Bool-cases,
}
use local_canvas.Prelude.Dict.{lookup, has_key, has_key-false}
use local_canvas.Comfy.{ComfyApi}
use local_canvas.Jobs.Job.{Job, Progress, is_terminal}
use local_canvas.Jobs.Store.{
  JobStore, Wording, empty, get, for_prompt, new_id, create, snapshot, cancel, note_change,
  is_progress, progress_on, note_progress,
}
use local_canvas.Jobs.Sections.{
  progresses, creates, Run, Run-trans, here, next, refresh-Ran, cancel_job-Ran,
}
use local_canvas.Jobs.Invariant.{IsWell, empty-IsWell, Run-IsWell}
use local_canvas.Jobs.Finality.{SameAt, Run-SameAt, Moved, Run-Moved}

pub data Call : Type 0 where
  creates_job : List String → String → String → String → List String → Call
  snapshots cancels changes : String → Call
  reports : String → ℕ → ℕ → Call

-- A creation whose draws all name jobs leaves the store as it was: the code goes on drawing.
after_create : JobStore → Option (Job × JobStore) → JobStore
after_create s none = s
after_create s (some (job, s')) = s'

pub new_id-fresh :
    (draws : List String) (s : JobStore) (k : String)
    → new_id draws s ≡ some k
    → lookup k s.jobs ≡ none
unfolding new_id
new_id-fresh [] s k h = cc
new_id-fresh (d ∷ draws) s k h = elim (Bool-cases (has_key d s.jobs)) [
  | inl taken ↦ new_id-fresh draws s k (ground arith)
  | inr free ↦ ground (arith, has_key-false d s.jobs)
]

create-Run :
    (words : Wording) (draws : List String) (now wf p : String) (types : List String) (s : JobStore)
    → Run words s (after_create s (create draws now wf p types s))
unfolding create after_create
create-Run words draws now wf p types s = elim (Option-cases (new_id draws s)) [
  | inl e ↦ rw (e, create) here
  | inr (k, e) ↦ rw (e, create) (next here (creates k wf p now types (new_id-fresh draws s k e)))
]

held :
    {s : JobStore} (k : String) {job : Job}
    → IsWell s
    → lookup k s.jobs ≡ some job
    → lookup job.job_id s.jobs ≡ some job
held {s} k {job} v h = ap (λ j. lookup j s.jobs) (v.named k job h) ∙ h

for_prompt-lookup :
    (s : JobStore) (p : String) (job : Job)
    → for_prompt s p ≡ some job
    → (k : String) × (lookup k s.jobs ≡ some job)
unfolding for_prompt
for_prompt-lookup s p job h = elim (Option-cases (lookup p s.by_prompt)) [
  | inl e ↦ absurd (ground arith)
  | inr (k, e) ↦ (k, ground arith)
]

pub for_prompt-held :
    {s : JobStore} (p : String) {job : Job}
    → IsWell s
    → for_prompt s p ≡ some job
    → lookup job.job_id s.jobs ≡ some job
for_prompt-held {s} p {job} v h = let (k, at) = for_prompt-lookup s p job h in held k v at

progress_on-Run :
    (words : Wording) (job : Job) (p : Progress) (s : JobStore)
    → lookup job.job_id s.jobs ≡ some job
    → Run words s (progress_on job p s)
unfolding progress_on
progress_on-Run words job p s h = elim (Bool-cases (is_terminal job.state)) [
  | inl over ↦ simp over here
  | inr going ↦ elim (Bool-cases (is_progress job.progress p)) [
    | inl same ↦ simp (going, same) here
    | inr differs ↦
        simp (going, differs) (next here (progresses job p (record { held = h; going = going })))
  ]
]

module _ {W : Type 0} (words : Wording) (api : ComfyApi W) where
  unfoldable pub call : Call → JobStore → W → JobStore × W
  unfolding after_create create
  call (creates_job draws now wf p types) s w = (after_create s (create draws now wf p types s), w)
  call (snapshots k) s w = let (_, s', w') = snapshot words api k s w in (s', w')
  call (cancels k) s w = let (_, s', w') = cancel words api k s w in (s', w')
  call (changes p) s w = note_change words api p s w
  call (reports p step total) s w = (note_progress p step total s, w)

  unfoldable pub calls : List Call → JobStore → W → JobStore × W
  calls [] s w = (s, w)
  calls (c ∷ cs) s w = let (s', w') = call c s w in calls cs s' w'

  call-Run : (c : Call) (s : JobStore) (w : W) → IsWell s → Run words s (call c s w).0
  unfolding call get snapshot cancel note_change note_progress
  call-Run (creates_job draws now wf p types) s w v = create-Run words draws now wf p types s
  call-Run (snapshots k) s w v = elim (Option-cases (lookup k s.jobs)) [
    | inl e ↦ rw (e, snapshot) here
    | inr (job, e) ↦ rw (e, snapshot) (refresh-Ran words api job s w (held k v e)).run
  ]
  call-Run (cancels k) s w v = elim (Option-cases (lookup k s.jobs)) [
    | inl e ↦ rw (e, cancel) here
    | inr (job, e) ↦ rw (e, cancel) (cancel_job-Ran words api job s w (held k v e)).run
  ]
  call-Run (changes p) s w v = elim (Option-cases (for_prompt s p)) [
    | inl e ↦ rw (e, note_change) here
    | inr (job, e) ↦ rw (e, note_change) (refresh-Ran words api job s w (for_prompt-held p v e)).run
  ]
  call-Run (reports p step total) s w v = elim (Option-cases (for_prompt s p)) [
    | inl e ↦ rw (e, note_progress) here
    | inr (job, e) ↦
        rw (e, note_progress)
          (progress_on-Run words job (record { step = step; total = total }) s
            (for_prompt-held p v e))
  ]

  calls-Run : (cs : List Call) (s : JobStore) (w : W) → IsWell s → Run words s (calls cs s w).0
  unfolding calls
  calls-Run [] s w v = here
  calls-Run (c ∷ cs) s w v =
      let first = call-Run c s w v in
      let (s', w') = call c s w in
      Run-trans words first (calls-Run cs s' w' (Run-IsWell words first v))

  -- Whatever the methods called and whatever ComfyUI answers, a store that starts empty is well
  -- formed: each job stands under its own id, has the shape of its state, and is published as it
  -- is, under a version of at least 1.
  pub calls-IsWell : (cs : List Call) (w : W) → IsWell (calls cs empty w).0
  calls-IsWell cs w = Run-IsWell words (calls-Run cs empty w empty-IsWell) empty-IsWell

  -- Once a job is completed, failed or cancelled, no later call of any method, on it or on any
  -- other job, changes the job, its published snapshot or its version, whatever ComfyUI answers.
  pub calls_terminal :
      (before cs : List Call) (w w' : W) (k : String) (job : Job)
      → lookup k (calls before empty w).0.jobs ≡ some job
      → is_terminal job.state ≡ true
      → SameAt k (calls before empty w).0 (calls cs (calls before empty w).0 w').0
  calls_terminal before cs w w' k job h over =
      Run-SameAt words k job h over
        (calls-Run cs (calls before empty w).0 w' (calls-IsWell before w))

  -- Between any two moments, either the version of a job is the same and so is its published
  -- snapshot, or the version went up.
  pub calls_version :
      (before cs : List Call) (w w' : W) (k : String)
      → Moved k (calls before empty w).0 (calls cs (calls before empty w).0 w').0
  calls_version before cs w w' k =
      Run-Moved words k (calls-Run cs (calls before empty w).0 w' (calls-IsWell before w))
