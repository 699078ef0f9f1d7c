-- ===== src/Publish.antt =====
-- publish.py: `PublishService`, which prepares a generation in Git and in the control plane, and then
-- activates it.
pub mod Builder
pub mod Survivors
pub mod Release
pub mod Prepare
pub mod Materialize
pub mod Service
mod Examples
