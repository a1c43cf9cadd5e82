-- ===== src/Watching/Deltas.antt =====
-- `_deltas` of gateway/localcanvas_gateway/api/events.py. The empty mapping before the first batch is
-- `none`.
use native.Mathlib.Decide.{ℕ_discrete}
use local_canvas.Prelude.{ℕ, String, Option, none, some, List, [], ◌∷◌, ◌++◌}
use local_canvas.Prelude.Text.{String_discrete}
use local_canvas.Jobs.Job.{JobState, JobError, JobView, Progress, ResultView}

pub data Message : Type 0 where
  progress : ℕ → ℕ → Message
  result : List ResultView → Message
  error : String → Message
  state : JobState → Message

-- `previous.get(...)`, or what stands for a missing key.
unfoldable pub last_progress : Option JobView → Option Progress
last_progress none = none
last_progress (some v) = v.progress

unfoldable pub last_results : Option JobView → List ResultView
last_results none = []
last_results (some v) = v.results

unfoldable pub last_error : Option JobView → Option JobError
last_error none = none
last_error (some v) = v.error

unfoldable pub last_state : Option JobView → Option JobState
last_state none = none
last_state (some v) = some v.state

-- `==` on the parts of two snapshots.
unfoldable pub same_progress : Discrete (Option Progress)
same_progress = hlevel (ℕ_discrete)

unfoldable pub same_results : Discrete (List ResultView)
same_results = hlevel (ℕ_discrete, String_discrete)

unfoldable pub same_error : Discrete (Option JobError)
same_error = hlevel (String_discrete)

unfoldable pub same_state : Discrete (Option JobState)
same_state = hlevel

-- A message, where a test has failed.
unfoldable pub unless : {P : Type 0} → Dec P → Message → List Message
unless (yes p) m = []
unless (no p) m = m ∷ []

unfoldable pub progress_delta : Option Progress → Option Progress → List Message
progress_delta before none = []
progress_delta before (some p) = unless (same_progress (some p) before) (progress p.step p.total)

unfoldable pub results_delta : List ResultView → List ResultView → List Message
results_delta before [] = []
results_delta before (r ∷ rs) = unless (same_results (r ∷ rs) before) (result (r ∷ rs))

unfoldable pub error_delta : Option JobError → Option JobError → List Message
error_delta before none = []
error_delta before (some e) = unless (same_error (some e) before) (error e.message)

unfoldable pub state_delta : Option JobState → JobState → List Message
state_delta before now = unless (same_state (some now) before) (state now)

-- `_deltas`
unfoldable pub deltas : Option JobView → JobView → List Message
unfolding progress_delta results_delta error_delta state_delta
deltas previous current =
    progress_delta (last_progress previous) current.progress
    ++ (results_delta (last_results previous) current.results
        ++ (error_delta (last_error previous) current.error
            ++ state_delta (last_state previous) current.state))
