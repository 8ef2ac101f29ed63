-- ===== src/Stream.antt =====
-- `run_single_query` of .agents/skills/skill-creator/scripts/run_eval.py: the reader of the event
-- stream that `claude -p` prints, and the clean-up around it.
pub mod Scan
pub mod Chunks
pub mod Query
pub mod Early
pub mod Cleanup
