-- ===== src/HtmlReport.antt =====
-- .agents/skills/skill-creator/scripts/generate_report.py.
pub mod Escape
pub mod Style
pub mod Parts
pub mod Page
pub mod Live
pub mod Entries
pub mod Written
pub mod Outcome
pub mod Best
pub mod Runs
