-- ===== src/Registry.antt =====
-- gateway/localcanvas_gateway/workflows/registry.py: which of the definitions of a registry are
-- served. `Resolve` has the code; `Claims`, `Served` and `Order` prove.
pub mod Resolve
mod Claims
pub mod Served
mod Order
pub mod Sound
mod Examples
