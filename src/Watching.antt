-- ===== src/Watching.antt =====
-- gateway/localcanvas_gateway/api/events.py: what a watcher of a job is sent between two snapshots.
-- `Deltas` is the code, `Caught` proves.
pub mod Deltas
pub mod Caught
mod Examples
