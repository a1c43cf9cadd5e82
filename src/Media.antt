-- ===== src/Media.antt =====
-- gateway/localcanvas_gateway/media.py: the store of uploads. `Store` has its operations, `Kept`
-- proves.
pub mod Store
pub mod Sniff
pub mod Decide
mod Bytes
mod Tables
pub mod Resolve
mod Once
pub mod Kept
mod Examples
