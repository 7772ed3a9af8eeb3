-- ===== src/Workflow.antt =====
-- internal/ascpworkflow: proposals that take effect after a second person has approved them.
pub mod Grammar
pub mod Types
pub mod Rules
pub mod Store
pub mod Chain
pub mod Binding
pub mod Service
pub mod Boundary
pub mod Pending
pub mod Steps
