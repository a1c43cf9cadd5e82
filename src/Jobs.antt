-- ===== src/Jobs.antt =====
-- gateway/localcanvas_gateway/jobs.py: the job store. `Job` has the data and the snapshot, `Store`
-- the operations; the other children prove.
pub mod Job
pub mod Store
pub mod Commit
pub mod Sections
pub mod Invariant
pub mod Finality
pub mod Calls
pub mod Evidence
pub mod Cancel
pub mod Races
mod Examples
