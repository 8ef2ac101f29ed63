-- ===== src/Loop.antt =====
-- .agents/skills/skill-creator/scripts/run_loop.py: the train/test split and the loop of evaluation
-- and improvement.
pub mod Split
pub mod History
pub mod Cells
pub mod Run
pub mod Exit
pub mod Tested
pub mod Best
pub mod Result
pub mod Live
pub mod Returns
pub mod Vacuous
