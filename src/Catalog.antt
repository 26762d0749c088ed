-- ===== src/Catalog.antt =====
-- src/test-catalog: the markers of the generated test kinds and the production-safety tag.
pub mod Markers
pub mod Selection
mod Tests
pub mod Endpoint
pub mod CaseId
pub mod Case
pub mod SchemaWalker
pub mod Generators
pub mod Skips
pub mod Plan
