-- ===== src/Runtime.antt =====
-- memory_runtime/: the services around a model call. Amounts and scores are decimal texts in the
-- source; here they are the numbers that they denote. Times are seconds since the epoch.
pub mod Cost
pub mod Attention
pub mod Cache
pub mod Degrade
mod Examples
