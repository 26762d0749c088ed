-- ===== src/Assertions.antt =====
-- src/assertions: the arithmetic of assertion operands.
pub mod Tokens
pub mod State
pub mod Parser
pub mod Evaluator
