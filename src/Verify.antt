-- ===== src/Verify.antt =====
-- src/verification.go: whether the facts that a task's completion contract names hold. Verify/Tools
-- has the tools that are asked, Verify/Judge the judgement of a criterion and of a done,
-- Verify/Contract what is checked of a contract before it is pinned, and Verify/History what a
-- task's steps have produced.
pub mod Tools
pub mod Judge
pub mod Contract
pub mod History
