-- ===== src/Frontmatter.antt =====
-- `parse_skill_md` of .agents/skills/skill-creator/scripts/utils.py, and the command file that
-- `run_single_query` (run_eval.py) writes.
pub mod Parse
pub mod CommandFile
