-- ===== src/Jobs/Commit.antt =====
-- What one write and one publication do to the four maps of the store.
use local_canvas.Prelude.{
  ◌+◌, String, ◌≡◌, ap, true, Option, none, some, arith, ◌==◌, eq_iff, if◌then◌else◌,
}
use local_canvas.Prelude.Dict.{lookup, insert, lookup-insert}
use local_canvas.Jobs.Job.{Job, JobView, to_view}
use local_canvas.Jobs.Store.{JobStore, version, is_view, publish, commit}

pub is_view-true : (o : Option JobView) (v : JobView) → is_view o v ≡ true → o ≡ some v
unfolding is_view
is_view-true none v h = cc
is_view-true (some u) v h = ground arith

pub version_same :
    (k : String) (s t : JobStore) → t.versions ≡ s.versions → version t k ≡ version s k
unfolding version
version_same k s t e = ap (λ d. version (record s { versions = d }) k) e

module _ (job : Job) (s : JobStore) where
  pub jobs-commit : (commit job s).jobs ≡ insert job.job_id job s.jobs
  unfolding commit
  jobs-commit = ground arith

  pub jobs-publish : (publish job s).jobs ≡ s.jobs
  unfolding publish
  jobs-publish = ground arith

  pub views-publish :
      (k : String)
      → lookup k (publish job s).views
        ≡ (if job.job_id == k then some (to_view job) else lookup k s.views)
  unfolding publish
  views-publish k = ground (
    arith,
    lookup-insert job.job_id k (to_view job) s.views,
    is_view-true (lookup job.job_id s.views) (to_view job),
    eq_iff job.job_id k,
  )

  -- The version of a job goes up by one if its snapshot differs from the published one, and else
  -- stays; other versions stay.
  pub version-publish :
      (k : String)
      → version (publish job s) k ≡ (
          if job.job_id == k
          then (if is_view (lookup job.job_id s.views) (to_view job)
              then version s k
              else version s k + 1)
          else version s k)
  unfolding publish version
  version-publish k =
      ground (
        arith,
        lookup-insert job.job_id k (version s job.job_id + 1) s.versions,
        eq_iff job.job_id k,
      )
