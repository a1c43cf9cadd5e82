-- ===== src/Jobs/Finality.antt =====
-- What runs of locked sections (jobs.py) leave alone: jobs that are over, and the snapshots of
-- jobs whose version has not moved.
use local_canvas.Prelude.{
  ◌<◌, String, ◌≡◌, refl, true, some, arith, ◌==◌, eq_iff, false, ◌⊎◌, inl, ap, ◌∙◌,
}
use local_canvas.Prelude.Dict.{lookup, insert, lookup-insert}
use local_canvas.Jobs.Job.{Job, is_terminal, to_view}
use local_canvas.Jobs.Store.{
  JobStore, Wording, version, apply_history, settle_queue, publish, write, commit, new_job,
}
use local_canvas.Jobs.Commit.{
  jobs-publish, views-publish, version-publish, version_same, is_view-true,
}
use local_canvas.Jobs.Sections.{
  IsOpen, Section, finds_entry, finds_place, claims, progresses, creates, Run, here, next,
  job_id-apply_history, job_id-settle_queue,
}

-- The entry, the snapshot and the version under one id are the same in both stores.
pub record SameAt (k : String) (s t : JobStore) : Type 0 where
  pub same_job : lookup k t.jobs ≡ lookup k s.jobs
  pub same_view : lookup k t.views ≡ lookup k s.views
  pub same_version : version t k ≡ version s k

-- The version has not moved and the snapshot is the same, or the version went up.
abbrev pub Moved : String → JobStore → JobStore → Type 0
Moved k s t =
    ((version t k ≡ version s k) × (lookup k t.views ≡ lookup k s.views))
    ⊎ (version s k < version t k)

publish-Moved :
    (k : String) (job : Job) (s t : JobStore)
    → t.views ≡ s.views
    → t.versions ≡ s.versions
    → Moved k s (publish job t)
publish-Moved k job s t views versions = ground (
  arith,
  version-publish job t k,
  version_same k s t versions,
  views-publish job t k,
  ap (lookup k) views,
  is_view-true (lookup job.job_id t.views) (to_view job),
  eq_iff job.job_id k,
)

publish-SameAt :
    (k : String) (job : Job) (s t : JobStore)
    → t.jobs ≡ insert job.job_id job s.jobs
    → t.views ≡ s.views
    → t.versions ≡ s.versions
    → (job.job_id == k) ≡ false
    → SameAt k s (publish job t)
publish-SameAt k job s t jobs views versions other = record {
  same_job = rw (jobs-publish, jobs, lookup-insert job.job_id k job s.jobs, other);
  same_view = ground (arith, views-publish job t k, ap (lookup k) views);
  same_version = ground (arith, version-publish job t k, version_same k s t versions);
}

commit-SameAt :
    (k : String) (job : Job) (s : JobStore) → (job.job_id == k) ≡ false → SameAt k s (commit job s)
unfolding commit write
commit-SameAt k job s other = publish-SameAt k job s (write job s) refl refl refl other

module _ (k : String) (job over : Job) (s : JobStore) where
  apart :
      IsOpen job s
      → lookup k s.jobs ≡ some over
      → is_terminal over.state ≡ true
      → (job.job_id == k) ≡ false
  apart o h over' = ground (arith, eq_iff job.job_id k, o.held, o.going)

module _ (words : Wording) where
  Section-Moved : (k : String) {s t : JobStore} → Section words s t → Moved k s t
  Section-Moved k {s} (finds_entry job e o) =
      let found = apply_history words e job in
      unfold commit write in publish-Moved k found s (write found s) refl refl
  Section-Moved k {s} (finds_place job p o) =
      let found = settle_queue p job in
      unfold commit write in publish-Moved k found s (write found s) refl refl
  Section-Moved k {s} (claims job o) = unfold write version in inl (refl, refl)
  Section-Moved k {s} (progresses job p o) =
      let found : Job = record job { progress = some p } in
      unfold commit write in publish-Moved k found s (write found s) refl refl
  Section-Moved k {s} (creates job_id workflow_id prompt_id now types fresh) =
      let job = new_job job_id workflow_id prompt_id now types in
      publish-Moved k job s
        (record (write job s) { by_prompt = insert prompt_id job_id s.by_prompt })
        (unfold write in refl) (unfold write in refl)

  Section-SameAt :
      (k : String) (over : Job) {s t : JobStore}
      → lookup k s.jobs ≡ some over
      → is_terminal over.state ≡ true
      → Section words s t
      → SameAt k s t
  Section-SameAt k over {s} h done (finds_entry job e o) =
      commit-SameAt k (apply_history words e job) s
        (rw (job_id-apply_history words e job) (apart k job over s o h done))
  Section-SameAt k over {s} h done (finds_place job p o) =
      commit-SameAt k (settle_queue p job) s
        (rw (job_id-settle_queue p job) (apart k job over s o h done))
  Section-SameAt k over {s} h done (claims job o) =
      let claimed : Job = record job { queue_deleted = true } in
      unfold write version in
      record {
        same_job = rw (lookup-insert job.job_id k claimed s.jobs, apart k job over s o h done);
        same_view = refl;
        same_version = refl;
      }
  Section-SameAt k over {s} h done (progresses job p o) =
      commit-SameAt k (record job { progress = some p }) s (apart k job over s o h done)
  Section-SameAt k over {s} h done (creates job_id workflow_id prompt_id now types fresh) =
      let job = new_job job_id workflow_id prompt_id now types in
      publish-SameAt k job s
        (record (write job s) { by_prompt = insert prompt_id job_id s.by_prompt })
        (unfold write in refl) (unfold write in refl) (unfold write in refl)
        (unfold new_job in ground (arith, eq_iff job_id k))

  -- A run of locked sections leaves a job that is over as it is, and publishes nothing for it.
  pub Run-SameAt :
      (k : String) (over : Job) {s t : JobStore}
      → lookup k s.jobs ≡ some over
      → is_terminal over.state ≡ true
      → Run words s t
      → SameAt k s t
  Run-SameAt k over h done here = record { same_job = refl; same_view = refl; same_version = refl }
  Run-SameAt k over h done (next r step) =
      let before = Run-SameAt k over h done r in
      let last = Section-SameAt k over (before.same_job ∙ h) done step in
      record {
        same_job = last.same_job ∙ before.same_job;
        same_view = last.same_view ∙ before.same_view;
        same_version = last.same_version ∙ before.same_version;
      }

  -- A watcher that compares versions misses nothing: while the version of a job stands, so does
  -- its published snapshot, and a version never goes down.
  pub Run-Moved : (k : String) {s t : JobStore} → Run words s t → Moved k s t
  Run-Moved k here = inl (refl, refl)
  Run-Moved k (next r step) = grind (arith, Run-Moved k r, Section-Moved k step)
