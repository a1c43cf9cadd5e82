-- ===== src/Api/Examples.antt =====
-- A submission (api/jobs.py) to a registry of one workflow, with translation switched off.
use local_canvas.Prelude.{ℕ, ◌+◌, String, true, false, List, [], ◌∷◌}
use local_canvas.Values.{Value, str, obj, end, field}
use local_canvas.Translation.Service.{Config, Translator, TranslationResult, apply}
use local_canvas.Translation.Service
use local_canvas.Binding.Bind.{Resolver, bind_values}
use local_canvas.Binding.Bind
use local_canvas.Definition.Notes.{Problem}
use local_canvas.Definition.Yaml.{Source}
use local_canvas.Definition.Head.{GraphFile}
use local_canvas.Definition.Parse.{LoadedDefinition}
use local_canvas.Definition.Examples.{printing, files, file, loaded, flow}
use local_canvas.Registry.Resolve.{resolve}
use local_canvas.Jobs.Store.{empty}
use local_canvas.Api.Errors.{ApiError}
use local_canvas.Api.Submit.{ResolverError, accepted, Parts, submit_job}
use local_canvas.Api.Outcome.{Settled, submit_job-Settled}

-- The state counts what was sent to ComfyUI.
abbrev translate : Translator ApiError ℕ
translate text source target sent = (Service.done text, sent)

abbrev config : Config
config = record {
  enabled = false;
  sources = "ru" ∷ [];
  target = "en";
  preserve_quoted_literals = true;
}

abbrev resolve_media : Resolver ResolverError ℕ
resolve_media f v sent = (Bind.done (str "up.png"), sent + 1)

abbrev parts : Parts ℕ
parts = record {
  translate = translate;
  config = config;
  resolve = resolve_media;
  submit = λ graph sent. (accepted "prompt-1", sent + 1);
  show_value = λ v. "a value";
}

abbrev wording : Problem → String
wording problem = "a problem"

abbrev graphs : String → String → GraphFile
graphs name = files

abbrev one_file : List (String × Source)
one_file = ("flow.yaml", file) ∷ []

abbrev all_loaded : List LoadedDefinition
all_loaded = loaded ∷ []

abbrev payload : Value
payload =
    obj (
      field "workflow_id" (str "flow")
        (field "inputs" (obj (field "prompt" (str "a cat") end)) end))

submit_job-Settled_example :
    Settled empty (submit_job parts ("job-1" ∷ []) "now" printing (flow ∷ []) payload empty 0)
submit_job-Settled_example =
    submit_job-Settled parts ("job-1" ∷ []) "now" printing (flow ∷ []) payload empty 0
