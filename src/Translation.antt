-- ===== src/Translation.antt =====
-- gateway/localcanvas_gateway/translation: the stage between validation and binding. `Spans`,
-- `Detect` and `Service` are the code; the other children prove.
pub mod Spans
pub mod Detect
pub mod Service
pub mod Partition
pub mod Trimmed
pub mod Rendering
pub mod Applied
pub mod Raised
pub mod Names
mod Examples
