-- ===== src/ControlPlane.antt =====
-- controlplane.py: the SQLite database that decides what is published. `Schema` has the tables, the
-- other modules the methods of `ControlPlane`, and their children the proofs.
pub mod Schema
pub mod Lease
pub mod Generations
pub mod Claims
pub mod Activation
pub mod Search
pub mod Outbox
pub mod Invariant
mod Examples
