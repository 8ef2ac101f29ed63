-- ===== src/Tests.antt =====
-- Runs of the modelled code, and the theorems at concrete data.
mod Samples
mod StreamTests
mod EvalTests
mod LoopTests
mod ReportTests
mod ImproveTests
mod ValidateTests
mod FrontmatterTests
mod BenchmarkTests
mod PackageTests
mod ExtractTests
mod ResilientTests
mod GuideTests
mod RenderTests
mod ServerTests
mod ViewerTests
