-- ===== src/Package.antt =====
-- package_skill.py.
pub mod Exclude
pub mod Archive
