-- ===== src/Core.antt =====
-- src/core: JavaScript values, their equality and the walk along a path.
pub mod Value
pub mod DeepEqual
pub mod PathWalk
pub mod Json
