-- ===== src/Viewer.antt =====
-- .agents/skills/skill-creator/eval-viewer/generate_review.py.
pub mod Page
pub mod Unique
pub mod Shown
pub mod Server
pub mod Feedback
pub mod RoundTrip
pub mod Tree
pub mod Embed
pub mod Build
pub mod Find
pub mod Kept
pub mod Sorted
pub mod Discover
pub mod Previous
pub mod Keys
pub mod Merged
