-- ===== src/Eval.antt =====
-- `run_eval` of .agents/skills/skill-creator/scripts/run_eval.py.
pub mod Pool
pub mod Report
pub mod Total
pub mod Threshold
pub mod Counts
pub mod Order
pub mod Root
