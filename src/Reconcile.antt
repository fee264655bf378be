-- ===== src/Reconcile.antt =====
-- gui/app/stage_reconciler.go: the repair of transitions that a stage of the automatic flow has left
-- undone.
pub mod History
pub mod Repair
pub mod Rules
pub mod Dispatch
pub mod Retry
pub mod Conditions
