-- ===== src/Extract.antt =====
-- .agents/skills/design-doc-mermaid/scripts/extract_mermaid.py.
pub mod Scan
pub mod Diagrams
pub mod Blocks
pub mod Check
pub mod Program
pub mod Status
pub mod Lossless
