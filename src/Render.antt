-- ===== src/Render.antt =====
-- .agents/skills/design-doc-mermaid/scripts/mermaid_to_image.py.
pub mod Renderer
pub mod Batch
pub mod Exits
