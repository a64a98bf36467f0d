-- ===== src/Examples.antt =====
-- Runs of the models on concrete inputs.
mod Bindings
mod Cycles
mod Decisions
pub mod Dones
pub mod Messages
mod Plans
mod Runs
mod News
mod Watches
