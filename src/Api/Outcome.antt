-- ===== src/Api/Outcome.antt =====
-- What a submission (api/jobs.py) does to the job store.
use local_canvas.Prelude.{
  String, ◌≡◌, ◌≢◌, ◌⊎◌, refl, none, some, List, arith, Option-cases, inl, inr,
}
use local_canvas.Prelude.Dict.{lookup, insert, lookup-insert_self}
use local_canvas.Values.{Value, Fields}
use local_canvas.Workflow.{WorkflowDefinition}
use local_canvas.Validation.Checks.{Printing}
use local_canvas.Translation.Service.{TranslationResult, Attempt, apply}
use local_canvas.Translation.Service
use local_canvas.Binding.Bind.{
  BindFault, unknown_fields, missing_fields, no_resolver, no_binding, no_target, Outcome,
  bind_values,
}
use local_canvas.Binding.Bind
use local_canvas.Jobs.Job.{Job, queued}
use local_canvas.Jobs.Store.{JobStore, create, new_id, new_job, publish, write}
use local_canvas.Jobs.Calls.{new_id-fresh}
use local_canvas.Jobs.Commit.{jobs-publish}
use local_canvas.Api.Errors.{ApiError, Answer, answered, refused, crashed}
use local_canvas.Api.Payload.{Prepared, prepare, node_types}
use local_canvas.Api.Submit.{
  Submitted, accepted, rejected, away, ResolverError, Parts, SubmissionView, Served,
  submission_view, binding_error, created, on_submitted, on_bound, on_translated, on_prepared,
  submit_job,
}

-- No job, and the store as it was.
abbrev NoJob : {W : Type 0} → JobStore → Served SubmissionView W → Type 0
NoJob s r = (r.1 ≡ s) × ((v : SubmissionView) → r.0 ≢ answered v)

-- A queued job, under an id that no job had.
abbrev NewJob : {W : Type 0} → JobStore → Served SubmissionView W → Type 0
NewJob s r =
    (v : SubmissionView) × (job : Job) × (r.0 ≡ answered v)
    × (lookup v.job_id s.jobs ≡ none)
    × (lookup v.job_id r.1.jobs ≡ some job)
    × (job.job_id ≡ v.job_id)
    × (job.state ≡ queued)
    × (v.state ≡ queued)

-- Either one or the other.
abbrev pub Settled : {W : Type 0} → JobStore → Served SubmissionView W → Type 0
Settled s r = NoJob s r ⊎ NewJob s r

refused-Settled : {W : Type 0} (s : JobStore) (e : ApiError) (w : W) → Settled s (refused e, s, w)
refused-Settled s e w = inl (refl, λ v h. absurd (ground arith))

crashed-Settled : {W : Type 0} (s : JobStore) (w : W) → Settled s (crashed, s, w)
crashed-Settled s w = inl (refl, λ v h. absurd (ground arith))

module _ {W : Type 0} (parts : Parts W) (draws : List String) (now : String) where
  -- The store with a new job, and the view of that job.
  fresh-NewJob :
      (job : Job) (result : TranslationResult) (s t : JobStore) (w : W)
      → lookup job.job_id s.jobs ≡ none
      → t.jobs ≡ insert job.job_id job s.jobs
      → job.state ≡ queued
      → NewJob s (answered (submission_view job result), publish job t, w)
  unfolding submission_view
  fresh-NewJob job result s t w fresh jobs waiting = (
    submission_view job result,
    job,
    refl,
    fresh,
    rw (jobs-publish job t, jobs) (lookup-insert_self job.job_id job s.jobs),
    refl,
    waiting,
    waiting,
  )

  created-Settled :
      (workflow : WorkflowDefinition) (result : TranslationResult) (graph : Fields)
      (prompt_id : String) (s : JobStore) (w : W)
      → Settled s (created parts draws now workflow result graph prompt_id s w)
  unfolding created create write new_job
  created-Settled workflow result graph prompt_id s w = elim (Option-cases (new_id draws s)) [
    | inl e ↦ rw (e, created, create) (crashed-Settled s w)
    | inr (k, e) ↦
        rw (e, created, create)
          (inr (
            fresh-NewJob (new_job k workflow.id prompt_id now (node_types parts.show_value graph))
              result s _ w (new_id-fresh draws s k e) refl refl))
  ]

  on_submitted-Settled :
      (workflow : WorkflowDefinition) (result : TranslationResult) (graph : Fields) (s : JobStore)
      (answer : Submitted × W)
      → Settled s (on_submitted parts draws now workflow result graph s answer)
  unfolding on_submitted
  on_submitted-Settled workflow result graph s (accepted prompt_id, w) =
      created-Settled workflow result graph prompt_id s w
  on_submitted-Settled workflow result graph s (rejected, w) = refused-Settled s _ w
  on_submitted-Settled workflow result graph s (away, w) = refused-Settled s _ w

  fault-Settled : (s : JobStore) (e : BindFault) (w : W) → Settled s (binding_error e, s, w)
  unfolding binding_error
  fault-Settled s (unknown_fields ids) w = refused-Settled s _ w
  fault-Settled s (missing_fields ids) w = refused-Settled s _ w
  fault-Settled s (no_resolver id) w = refused-Settled s _ w
  fault-Settled s (no_binding id) w = refused-Settled s _ w
  fault-Settled s (no_target id) w = crashed-Settled s w

  on_bound-Settled :
      (workflow : WorkflowDefinition) (result : TranslationResult) (s : JobStore)
      (bound : Outcome ResolverError Fields × W)
      → Settled s (on_bound parts draws now workflow result s bound)
  unfolding on_bound
  on_bound-Settled workflow result s (Bind.done graph, w) =
      on_submitted-Settled workflow result graph s (parts.submit graph w)
  on_bound-Settled workflow result s (Bind.fault e, w) = fault-Settled s e w
  on_bound-Settled workflow result s (Bind.raised e, w) = refused-Settled s _ w

  on_translated-Settled :
      (workflow : WorkflowDefinition) (s : JobStore)
      (attempt : Attempt ApiError TranslationResult × W)
      → Settled s (on_translated parts draws now workflow s attempt)
  unfolding on_translated
  on_translated-Settled workflow s (Service.done result, w) =
      on_bound-Settled workflow result s (bind_values (some parts.resolve) workflow result.values w)
  on_translated-Settled workflow s (Service.raised e, w) = refused-Settled s e w

  on_prepared-Settled :
      (s : JobStore) (w : W) (read : Answer Prepared)
      → Settled s (on_prepared parts draws now s w read)
  unfolding on_prepared
  on_prepared-Settled s w (answered given) =
      on_translated-Settled given.workflow s
        (apply parts.translate parts.config given.workflow given.values given.wanted w)
  on_prepared-Settled s w (refused e) = refused-Settled s e w
  on_prepared-Settled s w crashed = crashed-Settled s w

  -- A submission answers with a job or with an error. With an error, at whatever stage, the job store
  -- is as it was; with an answer, the store has a queued job under the id that was answered, which no
  -- job had before.
  pub submit_job-Settled :
      (p : Printing) (workflows : List WorkflowDefinition) (payload : Value) (s : JobStore) (w : W)
      → Settled s (submit_job parts draws now p workflows payload s w)
  unfolding submit_job
  submit_job-Settled p workflows payload s w = on_prepared-Settled s w (prepare p workflows payload)
