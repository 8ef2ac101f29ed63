-- ===== src/Resilient.antt =====
-- .agents/skills/design-doc-mermaid/scripts/resilient_diagram.py.
pub mod Detect
pub mod Exclusive
pub mod Filename
pub mod Characters
pub mod Safe
pub mod Guide
pub mod Parse
pub mod Sections
pub mod Ranking
pub mod Generate
pub mod Outcome
pub mod Program
