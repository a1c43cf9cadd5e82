-- ===== src/Api/Submit.antt =====
-- `submit_job`, `job_snapshot`, `cancel_job` and `_result` of api/jobs.py.
use local_canvas.Prelude.{
  String, Bool, true, false, Option, none, some, List, get_elem?, if◌then◌else◌,
}
use local_canvas.Prelude.Int.{ℤ, pos}
use local_canvas.Values.{Value, Fields}
use local_canvas.Workflow.{WorkflowDefinition}
use local_canvas.Validation.Checks.{Printing}
use local_canvas.Translation.Service.{
  Config, Attempt, Translator, TranslationResult, FieldTranslation, apply,
}
use local_canvas.Translation.Service
use local_canvas.Binding.Bind.{
  BindFault, unknown_fields, missing_fields, no_resolver, no_binding, no_target, Outcome, Resolver,
  bind_values,
}
use local_canvas.Binding.Bind
use local_canvas.Comfy.{ComfyApi}
use local_canvas.Jobs.Job.{Job, JobState, completed, JobResult, JobView, to_view}
use local_canvas.Jobs.Store.{JobStore, Wording, create, snapshot, cancel}
use local_canvas.Api.Errors.{
  ApiError, workflow_unusable, comfy_unavailable, comfy_rejected_workflow, job_not_found,
  result_not_found, Answer, answered, refused, crashed,
}
use local_canvas.Api.Payload.{Prepared, prepare, node_types}

-- What the media resolver raises: an `ApiError`, or the `ComfyError` of an upload to ComfyUI.
pub data ResolverError : Type 0 where
  api : ApiError → ResolverError
  comfy : ResolverError

-- What `comfy.submit` does: it answers a prompt id, or raises one of two errors.
pub data Submitted : Type 0 where
  accepted : String → Submitted
  rejected away : Submitted

-- The parts that a submission goes through, with their common state.
pub record Parts (W : Type 0) : Type 0 where
  pub translate : Translator ApiError W
  pub config : Config
  pub resolve : Resolver ResolverError W
  pub submit : Fields → W → Submitted × W
  pub show_value : Value → String

-- What a submission answers: `submission_view`, and what was translated.
pub record SubmissionView : Type 0 where
  pub job_id : String
  pub state : JobState
  pub created_at : String
  pub translation : List FieldTranslation

-- `submission_view`
unfoldable pub submission_view : Job → TranslationResult → SubmissionView
submission_view job result = record {
  job_id = job.job_id;
  state = job.state;
  created_at = job.created_at;
  translation = result.fields;
}

abbrev pub Served : Type 0 → Type 0 → Type 0
Served A W = Answer A × JobStore × W

-- The error for what `bind_values` raises by itself: only a `BindingError` is caught.
unfoldable pub binding_error : BindFault → Answer SubmissionView
binding_error (unknown_fields ids) = refused workflow_unusable
binding_error (missing_fields ids) = refused workflow_unusable
binding_error (no_resolver id) = refused workflow_unusable
binding_error (no_binding id) = refused workflow_unusable
binding_error (no_target id) = crashed

resolver_error : ResolverError → ApiError
resolver_error (api e) = e
resolver_error comfy = comfy_unavailable

module _ {W : Type 0} (parts : Parts W) (draws : List String) (now : String) where
  -- The job of an accepted prompt; `uuid4` is taken to draw an id that no job has among `draws`.
  unfoldable pub created :
      WorkflowDefinition
      → TranslationResult
      → Fields
      → String
      → JobStore
      → W
      → Served SubmissionView W
  unfolding submission_view
  created workflow result graph prompt_id s w =
      elim (create draws now workflow.id prompt_id (node_types parts.show_value graph) s) [
        | none ↦ (crashed, s, w)
        | some (job, s') ↦ (answered (submission_view job result), s', w)
      ]

  unfoldable pub on_submitted :
      WorkflowDefinition
      → TranslationResult
      → Fields
      → JobStore
      → Submitted × W
      → Served SubmissionView W
  unfolding created
  on_submitted workflow result graph s (accepted prompt_id, w) =
      created workflow result graph prompt_id s w
  on_submitted workflow result graph s (rejected, w) = (refused comfy_rejected_workflow, s, w)
  on_submitted workflow result graph s (away, w) = (refused comfy_unavailable, s, w)

  unfoldable pub on_bound :
      WorkflowDefinition
      → TranslationResult
      → JobStore
      → Outcome ResolverError Fields × W
      → Served SubmissionView W
  unfolding on_submitted binding_error resolver_error
  on_bound workflow result s (Bind.done graph, w) =
      on_submitted workflow result graph s (parts.submit graph w)
  on_bound workflow result s (Bind.fault e, w) = (binding_error e, s, w)
  on_bound workflow result s (Bind.raised e, w) = (refused (resolver_error e), s, w)

  unfoldable pub on_translated :
      WorkflowDefinition
      → JobStore
      → Attempt ApiError TranslationResult × W
      → Served SubmissionView W
  unfolding on_bound
  on_translated workflow s (Service.done result, w) =
      on_bound workflow result s (bind_values (some parts.resolve) workflow result.values w)
  on_translated workflow s (Service.raised e, w) = (refused e, s, w)

  unfoldable pub on_prepared : JobStore → W → Answer Prepared → Served SubmissionView W
  unfolding on_translated
  on_prepared s w (answered given) =
      on_translated given.workflow s
        (apply parts.translate parts.config given.workflow given.values given.wanted w)
  on_prepared s w (refused e) = (refused e, s, w)
  on_prepared s w crashed = (crashed, s, w)

  -- `submit_job`
  unfoldable pub submit_job :
      Printing → List WorkflowDefinition → Value → JobStore → W → Served SubmissionView W
  unfolding prepare on_prepared
  submit_job p workflows payload s w = on_prepared s w (prepare p workflows payload)

viewed : {W : Type 0} → Option Job × JobStore × W → Served JobView W
viewed (none, s, w) = (refused job_not_found, s, w)
viewed (some job, s, w) = (answered (to_view job), s, w)

module _ {W : Type 0} (words : Wording) (api : ComfyApi W) where
  -- `job_snapshot`
  unfoldable pub job_snapshot : String → JobStore → W → Served JobView W
  unfolding viewed snapshot
  job_snapshot job_id s w = viewed (snapshot words api job_id s w)

  -- The route `cancel_job`
  unfoldable pub cancel_route : String → JobStore → W → Served JobView W
  unfolding viewed cancel
  cancel_route job_id s w = viewed (cancel words api job_id s w)

is_completed : JobState → Bool
is_completed completed = true
is_completed state = false

-- `_result`, on what `int(index)` gives; `none` is ValueError.
unfoldable pub result_at : Job → Option ℤ → Answer JobResult
unfolding is_completed
result_at job (some (pos position)) =
    if is_completed job.state
    then (elim (get_elem? job.results position) [
      | none ↦ refused result_not_found
      | some result ↦ answered result
    ])
    else refused result_not_found
result_at job index = refused result_not_found
