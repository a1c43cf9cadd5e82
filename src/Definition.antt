-- ===== src/Definition.antt =====
-- gateway/localcanvas_gateway/workflows/definition.py: the parsing of a workflow's definition, which
-- goes on after a problem and notes them all. `Notes` has the notes, `Yaml` the search for duplicate
-- keys, `Head` what stands at the top, `Hints`, `Options`, `Limits` and `Targets` the parts of a field,
-- `Field` the field, and `Parse` the whole; the other children prove.
pub mod Notes
pub mod Yaml
pub mod Head
pub mod Hints
pub mod Options
pub mod Limits
pub mod Targets
pub mod Field
pub mod Parse
pub mod Quiet
pub mod Bindable
mod Parsed
mod Exclusive
mod Grown
mod Top
pub mod Loaded
mod Writable
pub mod Binds
mod Duplicates
pub mod Examples
