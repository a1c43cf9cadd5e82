-- ===== src/Binding.antt =====
-- gateway/localcanvas_gateway/workflows/binding.py: values written into a copy of the graph.
-- `Targets` has one write, `Bind` the whole of `bind_values`; the other children prove.
pub mod Targets
pub mod Bind
pub mod Refinement
pub mod Raised
pub mod Validated
mod Examples
