-- ===== src/Lib.antt =====
-- LocalCanvas: a phone app, and a gateway on the PC that runs ComfyUI for it. This library models
-- the gateway's own logic, gateway/localcanvas_gateway, and proves what it relies on.
--
-- A workflow is a definition in YAML with a graph in JSON beside it; both are read and checked when
-- the gateway starts (workflows/definition.py: Definition), and only a definition without a
-- diagnostic, under an id that no other file claims, is served (workflows/registry.py: Registry). A submission then passes through four parts in order, which its route calls
-- (api/jobs.py: Api). The values of the request are checked against
-- the workflow's fields (validation.py: Validation), the translatable texts are translated
-- (translation/: Translation), the values are written into a copy of the workflow's graph
-- (workflows/binding.py: Binding), and the job that ComfyUI accepted is kept in the job store
-- (jobs.py: Jobs). The store asks ComfyUI over an interface, `ComfyApi` of Comfy, which also holds
-- the data of comfy/client.py; Comfy/Reading reads the answers of /history and /queue, and
-- Comfy/Events the frames of ComfyUI's socket, which call the store. A watcher of a job is sent the
-- differences of its snapshots (api/events.py: Watching). Uploads wait in the media store (media.py:
-- Media), which reads their type off their first bytes, and binding has them handed to ComfyUI. Workflow holds the data of workflows/model.py, Values the values of
-- Python that cross JSON with its numbers, and Prelude what all share.
--
-- State. The job store is the record `JobStore`: `_jobs`, `_by_prompt`, `_views`, `_versions`. A
-- `Job` object is the entry under its id, so an assignment to a field of it writes that entry. Each
-- method is a function of the store and of a world `W` that ComfyUI answers from, and the names are
-- the source's: `create`, `refresh`, `snapshot`, `cancel`, `note_change`, `note_progress`. The draws
-- of `uuid4` and the clock are arguments. `validate_inputs`, `bind_values`, `translate_text`,
-- `apply`, `split_spans`, `detect_source`, `handle` and `_history_entry` keep their names too.
-- The parser of definitions, an object that collects its diagnostics in the source, is a function
-- into `Found`, an answer with the problems noted on the way; its functions are the methods' names.
-- `submit_job` is a function of the job store and of the state of the parts that it calls (`Parts`).
-- What is raised is a value: `Answer` in the routes, `Checked` in validation, `Outcome` in binding, `Attempt` in
-- translation, `Reply` for a call of ComfyUI that may fail, `none` for a TypeError.
--
-- Time and threads. The methods of the job store run one after the other in Jobs/Calls; Jobs/Races
-- interleaves the parts of two methods around their calls of ComfyUI. `wait_for_change` only
-- waits, and is left out.
--
-- Bounds. The loop over a text (`scan`) has one more unit of fuel than the text has characters, and
-- each round takes one at least. Decimal numerals have as many units as the number. A float's bits
-- are counted with 2048 units, enough for every int that a double can hold; one with more bits is
-- beyond the range anyway. An int has no bound, a float is a dyadic rational, an infinity or NaN.
-- The search of an EBML header has a step for each byte of the window, and a round takes two.
-- The clock of the media store counts whole units, where the source has seconds with a fraction.
--
-- Parameters, which stand for code that is not here or not modelled: ComfyUI, the translator, the
-- resolver of media references, `mimetypes.guess_type`, Python's `repr` of a text and `str` of a
-- float or of another value, the scrubber of ComfyUI's error text (`_reason` of jobs.py), what is
-- decided from the name and the first bytes of an upload, the YAML library, and what stands at the
-- path of a graph (`Source` and `GraphFile`). That library is taken to read every NaN as one object.
--
-- Not modelled: HTTP and the routes other than those of jobs, sockets, the disk and process start; the configuration, the search for
-- definition files, the sync of workflows, the wording of diagnostics; the check of file names; logging; the app and the launcher.
pub mod Api
pub mod Binding
pub mod Comfy
pub mod Definition
pub mod Jobs
pub mod Media
pub mod Prelude
pub mod Registry
pub mod Translation
pub mod Validation
pub mod Values
pub mod Watching
pub mod Workflow
