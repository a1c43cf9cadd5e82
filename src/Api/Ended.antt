-- ===== src/Api/Ended.antt =====
-- How `submit_job` of api/jobs.py can end, for a workflow that the registry serves: the branch for
-- what `bind_values` raises, and the missing target that it does not catch.
use local_canvas.Prelude.{String, ◌≡◌, ◌⊎◌, Option, none, some, List}
use local_canvas.Values.{Value}
use local_canvas.Workflow.{InputField, WorkflowDefinition}
use local_canvas.Validation.Checks.{Printing}
use local_canvas.Translation.Service
use local_canvas.Translation.Raised as TranslationRaised
use local_canvas.Binding.Bind
use local_canvas.Binding.Raised as BindingRaised
use local_canvas.Definition.Notes.{Problem}
use local_canvas.Definition.Yaml.{Source}
use local_canvas.Definition.Head.{GraphFile}
use local_canvas.Definition.Parse.{LoadedDefinition}
use local_canvas.Definition.Binds.{Settles}
use local_canvas.Registry.Resolve.{resolve, load_all}
use local_canvas.Api.Errors.{Answer, answered, refused, crashed}
use local_canvas.Api.Payload.{Prepared}
use local_canvas.Api.Submit.{ResolverError, api, comfy, Parts, SubmissionView}
use local_canvas.Api.Fair.{Other, Fair}

-- An error of the resolver that is not the one of an unusable workflow, or one of ComfyUI.
abbrev pub OtherRaised : ResolverError → Type 0
OtherRaised (api e) = Other e
OtherRaised comfy = Unit

-- An answer that a served workflow may give, where the reading of the request and the draw of an id
-- were as they are here: no refusal says that the workflow is unusable, and an internal error is one of
-- the reading, or there was no id.
abbrev pub Usable : Answer Prepared → Option String → Answer SubmissionView → Type 0
Usable read id (answered view) = Unit
Usable read id (refused e) = Other e
Usable read id crashed = (read ≡ crashed) ⊎ (id ≡ none)

module _ {W : Type 0} (parts : Parts W) (draws : List String) (now : String)
    (settles : (f : InputField) (v : Value) (s : W) → Settles (parts.resolve f v s).0)
    (resolver_raises : (f : InputField) (v : Value) (s : W)
      → BindingRaised.RaisesOnly OtherRaised (parts.resolve f v s).0)
    (translator_raises : (text source target : String) (s : W)
      → TranslationRaised.RaisesOnly Other (parts.translate text source target s).0)
    (wording : Problem → String) (p : Printing) (graphs : String → String → GraphFile)
    (files : List (String × Source)) (loaded : List LoadedDefinition)
    (load : load_all p graphs files ≡ some loaded) (payload : Value) where
  abbrev served : List WorkflowDefinition
  served = (resolve wording loaded).workflows
