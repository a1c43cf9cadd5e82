-- ===== src/Watching/Examples.antt =====
-- A watcher (api/events.py) of a job that was running and has completed.
use local_canvas.Prelude.{◌≡◌, none, some, [], ◌∷◌}
use local_canvas.Jobs.Job.{JobView, running, completed, ResultView}
use local_canvas.Watching.Deltas.{deltas, last_progress, last_results, last_error}
use local_canvas.Watching.Caught.{
  show_all, seen_of, newer_progress, newer_results, newer_error, show_all-deltas,
}

abbrev running_view : JobView
running_view = record {
  job_id = "job-1";
  workflow_id = "flow";
  state = running;
  progress = some (record { step = 3; total = 20 });
  results = [];
  error = none;
}

abbrev picture : ResultView
picture = record {
  index = 0;
  kind = "image";
  media_type = "image/png";
  path = "/api/v1/jobs/job-1/result/0";
}

abbrev completed_view : JobView
completed_view = record running_view { state = completed; progress = none; results = picture ∷ [] }

show_all-deltas_example :
    show_all (deltas (some running_view) completed_view) (seen_of (some running_view)) ≡ record {
      at = newer_progress (last_progress (some running_view)) none;
      files = newer_results (last_results (some running_view)) (picture ∷ []);
      problem = newer_error (last_error (some running_view)) none;
      phase = some completed;
    }
show_all-deltas_example = show_all-deltas (some running_view) completed_view
