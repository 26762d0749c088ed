-- ===== src/Env.antt =====
-- src/env: references of a config to its environment.
pub mod Tree
pub mod Templates
pub mod Secrets
pub mod Sets
pub mod Walks
