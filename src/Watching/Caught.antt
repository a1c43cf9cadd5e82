-- ===== src/Watching/Caught.antt =====
-- A client that applies every message of the stream (api/events.py) to what it has seen.
use local_canvas.Prelude.{String, ◌≡◌, refl, sym, ap, ◌∙◌, Option, none, some, List, [], ◌∷◌, ◌++◌}
use local_canvas.Jobs.Job.{JobState, JobError, JobView, Progress, ResultView}
use local_canvas.Watching.Deltas.{
  unless, Message, progress, result, error, state, last_progress, last_results, last_error,
  last_state, same_progress, same_results, same_error, same_state, progress_delta, results_delta,
  error_delta, state_delta, deltas,
}

-- What a client shows of a job.
pub record Seen : Type 0 where
  pub at : Option Progress
  pub files : List ResultView
  pub problem : Option String
  pub phase : Option JobState

abbrev pub show_message : Message → Seen → Seen
show_message (progress step total) seen = record seen {
  at = some (record { step = step; total = total });
}
show_message (result rs) seen = record seen { files = rs }
show_message (error message) seen = record seen { problem = some message }
show_message (state now) seen = record seen { phase = some now }

abbrev pub show_all : List Message → Seen → Seen
show_all [] seen = seen
show_all (m ∷ ms) seen = show_all ms (show_message m seen)

-- What of the snapshot replaces what was seen, and what stays.
abbrev pub newer_progress : Option Progress → Option Progress → Option Progress
newer_progress before none = before
newer_progress before (some p) = some p

abbrev pub newer_results : List ResultView → List ResultView → List ResultView
newer_results before [] = before
newer_results before (r ∷ rs) = r ∷ rs

abbrev pub message_of : Option JobError → Option String
message_of none = none
message_of (some e) = some e.message

abbrev pub newer_error : Option JobError → Option JobError → Option String
newer_error before none = message_of before
newer_error before (some e) = some e.message

-- A client that has seen a snapshot, whole.
abbrev pub seen_of : Option JobView → Seen
seen_of previous = record {
  at = last_progress previous;
  files = last_results previous;
  problem = message_of (last_error previous);
  phase = last_state previous;
}

show_all-append :
    (ms ns : List Message) (seen : Seen) → show_all (ms ++ ns) seen ≡ show_all ns (show_all ms seen)
show_all-append [] ns seen = refl
show_all-append (m ∷ ms) ns seen = show_all-append ms ns (show_message m seen)

show_next :
    (ms ns : List Message) (seen next : Seen)
    → show_all ms seen ≡ next
    → show_all (ms ++ ns) seen ≡ show_all ns next
show_next ms ns seen next e = show_all-append ms ns seen ∙ ap (show_all ns) e

show_unless :
    {P : Type 0} (d : Dec P) (m : Message) (seen after : Seen)
    → show_message m seen ≡ after
    → (P → seen ≡ after)
    → show_all (unless d m) seen ≡ after
unfolding unless
show_unless (yes p) m seen after e h = h p
show_unless (no p) m seen after e h = e

show_progress :
    (before now : Option Progress) (seen : Seen)
    → seen.at ≡ before
    → show_all (progress_delta before now) seen ≡ record seen { at = newer_progress before now }
unfolding progress_delta
show_progress before none seen e = ap (λ x. record seen { at = x }) e
show_progress before (some p) seen e =
    show_unless (same_progress (some p) before) (progress p.step p.total) seen
      (record seen { at = some p }) refl (λ s. ap (λ x. record seen { at = x }) (e ∙ sym s))

show_results :
    (before now : List ResultView) (seen : Seen)
    → seen.files ≡ before
    → show_all (results_delta before now) seen ≡ record seen { files = newer_results before now }
unfolding results_delta
show_results before [] seen e = ap (λ x. record seen { files = x }) e
show_results before (r ∷ rs) seen e =
    show_unless (same_results (r ∷ rs) before) (result (r ∷ rs)) seen
      (record seen { files = r ∷ rs }) refl (λ s. ap (λ x. record seen { files = x }) (e ∙ sym s))

show_error :
    (before now : Option JobError) (seen : Seen)
    → seen.problem ≡ message_of before
    → show_all (error_delta before now) seen ≡ record seen { problem = newer_error before now }
unfolding error_delta
show_error before none seen e = ap (λ x. record seen { problem = x }) e
show_error before (some p) seen e =
    show_unless (same_error (some p) before) (error p.message) seen
      (record seen { problem = some p.message }) refl
      (λ s. ap (λ x. record seen { problem = x }) (e ∙ ap message_of (sym s)))

show_state :
    (before : Option JobState) (now : JobState) (seen : Seen)
    → seen.phase ≡ before
    → show_all (state_delta before now) seen ≡ record seen { phase = some now }
unfolding state_delta
show_state before now seen e =
    show_unless (same_state (some now) before) (state now) seen (record seen { phase = some now })
      refl (λ s. ap (λ x. record seen { phase = x }) (e ∙ sym s))

-- A client that has seen one snapshot whole, and applies the messages between it and a later one,
-- shows the later one's state, its progress, results and error message where it has them, and else
-- those that it had shown before. A client that has seen nothing is told everything.
pub show_all-deltas :
    (previous : Option JobView) (current : JobView)
    → show_all (deltas previous current) (seen_of previous) ≡ record {
      at = newer_progress (last_progress previous) current.progress;
      files = newer_results (last_results previous) current.results;
      problem = newer_error (last_error previous) current.error;
      phase = some current.state;
    }
unfolding deltas
show_all-deltas previous current =
    let told : Seen = seen_of previous in
    let one : Seen = record told {
      at = newer_progress (last_progress previous) current.progress;
    } in
    let two : Seen = record one { files = newer_results (last_results previous) current.results } in
    let three : Seen = record two { problem = newer_error (last_error previous) current.error } in
    let last = state_delta (last_state previous) current.state in
    let errors = error_delta (last_error previous) current.error in
    let files = results_delta (last_results previous) current.results in
    show_next (progress_delta (last_progress previous) current.progress) (files ++ (errors ++ last))
      told one (show_progress (last_progress previous) current.progress told refl)
    ∙ show_next files (errors ++ last) one two
        (show_results (last_results previous) current.results one refl)
    ∙ show_next errors last two three (show_error (last_error previous) current.error two refl)
    ∙ show_state (last_state previous) current.state three refl
