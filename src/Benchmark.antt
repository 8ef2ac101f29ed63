-- ===== src/Benchmark.antt =====
-- .agents/skills/skill-creator/scripts/aggregate_benchmark.py.
pub mod Numbers
pub mod Stats
pub mod Load
pub mod Loaded
pub mod Aggregate
pub mod Generate
pub mod Markdown
pub mod Table
