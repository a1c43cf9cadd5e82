-- ===== src/Api/Errors.antt =====
-- `ApiError` (errors.py), and the errors that the routes of api/jobs.py raise themselves.
use local_canvas.Prelude.{ℕ, String, Option, none, some}
use local_canvas.Validation.Checks.{Failure}

pub record ApiError : Type 0 where
  pub status_code : ℕ
  pub code : String
  pub message : String
  pub field : Option String

-- `ValidationFailure.__init__`
unfoldable pub failure_error : Failure → ApiError
failure_error f = record {
  status_code = 400;
  code = f.code;
  message = f.message;
  field = some f.field;
}

abbrev pub bad_request : String → Option String → ApiError
bad_request message place = record {
  status_code = 400;
  code = "invalid_request";
  message = message;
  field = place;
}

abbrev pub workflow_not_found : ApiError
workflow_not_found = record {
  status_code = 404;
  code = "workflow_not_found";
  message = "That workflow is no longer available.";
  field = none;
}

abbrev pub workflow_unusable : ApiError
workflow_unusable = record {
  status_code = 500;
  code = "workflow_unusable";
  message = "This workflow could not be prepared for generation.";
  field = none;
}

abbrev pub comfy_unavailable : ApiError
comfy_unavailable = record {
  status_code = 503;
  code = "comfy_unavailable";
  message = "ComfyUI is not running, so nothing can be generated right now.";
  field = none;
}

abbrev pub comfy_rejected_workflow : ApiError
comfy_rejected_workflow = record {
  status_code = 502;
  code = "comfy_rejected_workflow";
  message =
      "ComfyUI could not run this workflow. Its definition may not match the ComfyUI on this PC.";
  field = none;
}

abbrev pub job_not_found : ApiError
job_not_found = record {
  status_code = 404;
  code = "job_not_found";
  message = "That generation is no longer known to this server.";
  field = none;
}

abbrev pub result_not_found : ApiError
result_not_found = record {
  status_code = 404;
  code = "result_not_found";
  message = "That result is not available.";
  field = none;
}

-- What a part of a route does: it answers, raises an `ApiError`, or raises something else, which is
-- answered as an internal error.
pub data Answer (A : Type 0) : Type 0 where
  answered : A → Answer A
  refused : ApiError → Answer A
  crashed : Answer A

infixl 5 ◌>>=◌
abbrev pub ◌>>=◌ : {A B : Type 0} → Answer A → (A → Answer B) → Answer B
answered a >>= f = f a
refused e >>= f = refused e
crashed >>= f = crashed
