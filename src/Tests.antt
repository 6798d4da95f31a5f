-- ===== src/Tests.antt =====
-- Runs of the model on small inputs, and the theorems at concrete inputs.
pub mod Tables
pub mod Volumes
pub mod Entries
pub mod Files
pub mod Mounts
pub mod Contents
pub mod Splits
pub mod Formats
pub mod Names
