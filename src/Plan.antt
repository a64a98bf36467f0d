-- ===== src/Plan.antt =====
-- A plan: the capabilities it calls (src/capability), where the inputs of its steps come from
-- (src/plan_input.go, src/plan_lineage.go), and how its steps run (src/action.go, src/runtime.go).
pub mod Source
pub mod Capability
pub mod World
pub mod Lineage
pub mod Resolve
pub mod Run
