-- ===== src/Comfy.antt =====
-- What the gateway knows of ComfyUI: the data of gateway/localcanvas_gateway/comfy/client.py, and
-- the calls of `ComfyClient` that the job store makes, as an interface over an unknown world.
pub mod Reading
pub mod Events
pub mod Shape
pub mod Notices
mod Examples
use local_canvas.Prelude.{String, Bool, List, Option, none, some, ◌==◌, if◌then◌else◌}

pub data QueuePlace : Type 0 where
  running pending absent : QueuePlace

pub record OutputFile : Type 0 where
  pub filename : String
  pub subfolder : String
  pub folder_type : String
  pub kind : String

-- `OutputFile.media_type`; what `mimetypes.guess_type` answers is the platform's.
unfoldable pub media_type : (String → Option String) → OutputFile → String
media_type guess_type o = elim (guess_type o.filename) [
  | some guessed ↦
      if guessed == ""
      then (if o.kind == "image" then "image/png" else "application/octet-stream")
      else guessed
  | none ↦ if o.kind == "image" then "image/png" else "application/octet-stream"
]

pub record ExecutionError : Type 0 where
  pub message : Option String
  pub exception_type : Option String
  pub node_id : Option String
  pub node_type : Option String

pub record HistoryEntry : Type 0 where
  pub found : Bool
  pub finished : Bool
  pub failed : Bool
  pub interrupted : Bool
  pub error : Option ExecutionError
  pub outputs : List OutputFile

-- A call that returns, or raises `ComfyError`.
pub data Reply {ℓ} (A : Type ℓ) : Type ℓ where
  answered : A → Reply A
  unreachable : Reply A

-- The calls that the job store makes. Each may change the world that it asks.
pub record ComfyApi (W : Type 0) : Type 0 where
  pub history : String → W → Reply HistoryEntry × W
  pub queue_place : String → W → Reply QueuePlace × W
  pub delete_queued : String → W → Reply (Unit {0}) × W
  pub interrupt : W → Reply (Unit {0}) × W
