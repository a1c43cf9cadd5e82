-- ===== src/Validation.antt =====
-- gateway/localcanvas_gateway/validation.py: the gate in front of ComfyUI. `Checks` has the checks
-- of one value, `Inputs` those of a submission; the other children prove.
pub mod Checks
pub mod Inputs
pub mod Conform
pub mod Fixed
pub mod Submission
mod Examples
