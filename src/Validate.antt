-- ===== src/Validate.antt =====
-- .agents/skills/skill-creator/scripts/quick_validate.py: `validate_skill`.
pub mod Names
pub mod Rules
pub mod Accepts
