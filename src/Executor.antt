-- ===== src/Executor.antt =====
-- domain/executor and infrastructure/executor: the policy that a command must meet, and its run.
pub mod Policy
pub mod Validator
pub mod Linux
